-- ===== src/Secrets/Rotation.antt =====
-- scripts/rotate_secret_master.py: the ciphertexts of a table under a new master secret.
pub mod Kept
pub mod Moved
use openradiusweb.Prelude.{
  ℕ, ◌+◌, Bool, true, false, Option, none, some, List, [], ◌∷◌, ◌++◌, map, if◌then◌else◌,
}
use openradiusweb.Prelude.Text.{Text, text_eq}
use openradiusweb.Prelude.Result.{Exn, Result, ok, err}
use openradiusweb.Prelude.Exec.{Exec, pure, gets, modify, ◌>>=◌, ◌>>◌}
use openradiusweb.Coa.Bytes.{Bytes}
use openradiusweb.Secrets.{Crypto, Environ, Vault, encrypt, decrypt}

-- A row of a table with its column of ciphertexts.
pub record Row : Type 0 where
  pub id : Text
  pub val : Option Text

-- What `_rotate_table` returns; a failure is the identifier of its row.
pub record Counts : Type 0 where
  pub rotated : ℕ
  pub skipped : ℕ
  pub failures : List Text

abbrev pub skip : Counts → Counts
skip n = record n { skipped = n.skipped + 1 }

abbrev pub fail : Text → Counts → Counts
fail row_id n = record n { failures = n.failures ++ row_id ∷ [] }

abbrev pub rotate : Counts → Counts
rotate n = record n { rotated = n.rotated + 1 }

-- `UPDATE … SET … WHERE id = %s`.
unfoldable pub set_val : Text → Option Text → List Row → List Row
set_val row_id ct rows = map (λ r. if text_eq r.id row_id then record r { val = ct } else r) rows

-- The environment, the keys that `_build_vaults` has derived for the two vaults, what os.urandom
-- gives at each row, and the options.
pub record Run : Type 0 where
  pub environ : Environ
  pub old : Bytes
  pub new : Bytes
  pub random : ℕ → Bytes
  pub dry_run : Bool
  pub skip_undecryptable : Bool

module _ (o : Crypto) (run : Run) where
  unfoldable pub old_decrypt : Option Text → Result (Option Text)
  unfolding decrypt
  old_decrypt val = (decrypt o run.environ val (some run.old)).0

  unfoldable pub new_encrypt : Bytes → Text → Result (Option Text)
  unfolding encrypt
  new_encrypt nonce plaintext = (encrypt o run.environ nonce (some plaintext) (some run.new)).0

  abbrev pub write_row : Text → Result (Option Text) → Counts → Exec (List Row) Counts
  write_row row_id (err e) n = pure (fail row_id n)
  write_row row_id (ok ct) n =
      if run.dry_run then pure (rotate n) else modify (set_val row_id ct) >> pure (rotate n)

  abbrev pub rotate_plaintext : ℕ → Text → Result (Option Text) → Counts → Exec (List Row) Counts
  rotate_plaintext k row_id (err e) n =
      if run.skip_undecryptable then pure (skip n) else pure (fail row_id n)
  rotate_plaintext k row_id (ok none) n = pure (skip n)
  rotate_plaintext k row_id (ok (some plaintext)) n =
      write_row row_id (new_encrypt (run.random k) plaintext) n

  abbrev pub rotate_val : ℕ → Text → Option Text → Counts → Exec (List Row) Counts
  rotate_val k row_id none n = pure (skip n)
  rotate_val k row_id (some []) n = pure (skip n)
  rotate_val k row_id (some (c ∷ ct)) n = rotate_plaintext k row_id (old_decrypt (some (c ∷ ct))) n

  -- The body of the loop over the rows, and the loop from a row on.
  unfoldable pub rotate_row : ℕ → Row → Counts → Exec (List Row) Counts
  unfolding old_decrypt new_encrypt set_val
  rotate_row k row n = rotate_val k row.id row.val n

  unfoldable pub rotate_rows : ℕ → List Row → Counts → Exec (List Row) Counts
  unfolding rotate_row
  rotate_rows k [] n = pure n
  rotate_rows k (row ∷ rows) n = rotate_row k row n >>= rotate_rows (k + 1) rows

  unfoldable pub rotate_table : Exec (List Row) Counts
  unfolding rotate_rows
  rotate_table = gets (λ rows. rows) >>= λ rows.
      rotate_rows 0 rows (record { rotated = 0; skipped = 0; failures = [] })
