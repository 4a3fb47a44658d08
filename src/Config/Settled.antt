-- ===== src/Config/Settled.antt =====
-- freeradius_config_watcher.py: a round after a round with the same database.
use openradiusweb.Prelude.{ℕ, ◌≡◌, Bool, true, some, List}
use openradiusweb.Prelude.Text.{Text}
use openradiusweb.Prelude.Result.{Result, ok}
use openradiusweb.Prelude.Exec.{Exec}
use openradiusweb.Config.Tables.{Outside}
use openradiusweb.Config.Files.{generate_all_configs}
use openradiusweb.Config.State.{World}
use openradiusweb.Config.Rounds.{IsCurrent}
use openradiusweb.Config.CertFiles.{CertsStored}

CountsSignals : Exec World Bool → Type 0
CountsSignals m = (w : World) → (n : ℕ) × ((m w).1 ≡ record w { signals = n })

module _ (o : Outside) (t : Text) (connected : o.connected ≡ true) (answers : o.answers ≡ true)
    (saves : (name : Text) → o.saves name ≡ true) where
  -- What a round leaves, where the certificates did not fail and the files were generated.
  Settled : World → Type 0
  Settled w =
      (configs : List (Text × Text)) × (w.default_tenant_id ≡ some t)
      × (generate_all_configs o w.db ≡ ok configs)
      × IsCurrent o t configs w
      × CertsStored o t w
