-- ===== src/Config/Watcher.antt =====
-- freeradius_config_watcher.py: the reload of FreeRADIUS, and the daemon's rounds.
use openradiusweb.Prelude.{suc, Bool, true, false, Option, none, some, [], ◌∷◌, if◌then◌else◌, any}
use openradiusweb.Prelude.Text.{Text, codes}
use openradiusweb.Prelude.Result.{Exn, Result, ok, err}
use openradiusweb.Prelude.Exec.{Exec, pure, raise, modify, catch, ◌>>=◌, ◌>>◌}
use openradiusweb.Prelude.Dict.{put}
use openradiusweb.Config.Tables.{Outside}
use openradiusweb.Config.State.{Status, World}
use openradiusweb.Config.Apply.{Info, Results, apply_configs, info_error}

abbrev pub is_applied : Text × Info → Bool
is_applied (k, v) = elim v.status [ Status.applied ↦ true | _ ↦ false ]

abbrev is_unchanged : Text × Info → Bool
is_unchanged (k, v) = elim v.status [ Status.unchanged ↦ true | _ ↦ false ]

abbrev pub any_applied : Results → Bool
any_applied results = any is_applied results

abbrev signal : Exec World (Unit {0})
signal = modify (λ w. record w { signals = suc w.signals })

module _ (o : Outside) where
  -- The command line: a command that fails, a timeout and a missing program give False.
  abbrev pub cli_failed : Exn → Exec World Bool
  cli_failed e = elim e [
    | Exn.called_process_error ↦ pure false
    | Exn.timeout_error ↦ pure false
    | Exn.file_not_found_error ↦ pure false
    | other ↦ raise other
  ]

  abbrev pub by_cli : Result (Unit {0}) → Exec World Bool
  by_cli (ok _) = signal >> pure true
  by_cli (err e) = cli_failed e

  abbrev pub by_sdk : Option (Result (Unit {0})) → Exec World Bool
  by_sdk (some (ok _)) = signal >> pure true
  by_sdk (some (err e)) = by_cli o.docker_cli
  by_sdk none = by_cli o.docker_cli

  unfoldable pub reload_freeradius : Exec World Bool
  reload_freeradius = by_sdk o.docker_sdk

  abbrev reload_info : Bool → Info
  reload_info true = record { status = Status.ok_status; hash = []; error = none }
  reload_info false = record {
    status = Status.error;
    hash = [];
    error = some (codes "HUP signal failed");
  }

  abbrev skipped_info : Results → Info
  skipped_info results = record {
    status = Status.skipped;
    hash = [];
    error = some (
        if any is_unchanged results
        then codes "No configs changed"
        else codes "No configs applied");
  }

  abbrev pub reload_if_applied : Results → Exec World Results
  reload_if_applied results =
      if any_applied results
      then (do
        reload_ok ← reload_freeradius
        pure (put (codes "_reload") (reload_info reload_ok) results))
      else pure (put (codes "_reload") (skipped_info results) results)

  unfoldable pub apply_and_reload : Exec World Results
  unfolding reload_freeradius apply_configs put
  apply_and_reload =
      catch (apply_configs o >>= reload_if_applied)
        (λ e. pure ((codes "_error", info_error [] (o.message e)) ∷ []))
