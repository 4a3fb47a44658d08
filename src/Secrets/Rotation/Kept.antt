-- ===== src/Secrets/Rotation/Kept.antt =====
-- scripts/rotate_secret_master.py: no row loses its secret.
use openradiusweb.Prelude.{
  ◌≡◌, refl, ◌∙◌, ap, ℕ, ◌+◌, Bool, true, false, Option, none, some, List, [], ◌∷◌, if◌then◌else◌,
  length, All, All-map, Bool-cases, inl, inr, ◌⊎◌,
}
use openradiusweb.Prelude.Text.{Text, text_eq}
use openradiusweb.Prelude.Result.{Result, ok, err}
use openradiusweb.Prelude.Exec.{pure, modify, ◌>>◌, continue}
use openradiusweb.Coa.Bytes.{IsByte}
use openradiusweb.Secrets.{Crypto, decrypt}
use openradiusweb.Secrets.RoundTrip.{IsAead, encrypt-kept, decrypt-encrypt}
use openradiusweb.Secrets.Rotation.{
  Row, Counts, Run, skip, fail, rotate, set_val, old_decrypt, new_encrypt, write_row,
  rotate_plaintext, rotate_val, rotate_row, rotate_rows, rotate_table,
}

-- A relation between the rows of two tables, in their order.
pub data Pairs (P : Row → Row → Type 0) : List Row → List Row → Type 0 where
  no_pair : Pairs P [] []
  pair : {r s : Row} {rs ss : List Row} → P r s → Pairs P rs ss → Pairs P (r ∷ rs) (s ∷ ss)

-- Rows of the table with the identifier of a row have its value.
abbrev pub IsKeyOf : List Row → Row → Type 0
IsKeyOf table r = All (λ t. text_eq t.id r.id ≡ true → t.val ≡ r.val) table

module _ (o : Crypto) (run : Run) where
  -- A value under the old key and one under the new that hold one secret.
  abbrev pub SameSecret : Option Text → Option Text → Type 0
  SameSecret before now =
      (plaintext : Text) × (old_decrypt o run before ≡ ok (some plaintext))
      × ((decrypt o run.environ now (some run.new)).0 ≡ ok (some plaintext))

  -- A row before a run and behind it.
  abbrev pub Rotated : Row → Row → Type 0
  Rotated r s = (s.id ≡ r.id) × ((s.val ≡ r.val) ⊎ SameSecret r.val s.val)

  abbrev pub Kept : List Row → List Row → Type 0
  Kept = Pairs Rotated

  pub Kept-refl : (rows : List Row) → Kept rows rows
  Kept-refl [] = no_pair
  Kept-refl (r ∷ rows) = pair (refl, inl refl) (Kept-refl rows)

  pub set_val-Kept :
      (row_id : Text) (ct : Option Text) {table rows : List Row}
      → Kept table rows
      → All (λ t. text_eq t.id row_id ≡ true → SameSecret t.val ct) table
      → Kept table (set_val row_id ct rows)
  unfolding set_val
  set_val-Kept row_id ct no_pair h = no_pair
  set_val-Kept row_id ct (pair {r} {s} (same, k) rest) (g, h) =
      elim (Bool-cases (text_eq s.id row_id)) [
        | inl e ↦
            let found : text_eq r.id row_id ≡ true = rw (← same) e in
            rw e (pair (same, inr (g found)) (set_val-Kept row_id ct rest h))
        | inr e ↦ rw e (pair (same, k) (set_val-Kept row_id ct rest h))
      ]

  -- A dry run writes nothing.
  write-Kept :
      (b : Bool) (row_id : Text) (ct : Option Text) (n : Counts) (table rows : List Row)
      → Kept table rows
      → All (λ t. text_eq t.id row_id ≡ true → SameSecret t.val ct) table
      → Kept table ((if b then pure n else modify (set_val row_id ct) >> pure n) rows).1
  write-Kept true row_id ct n table rows kept h = kept
  write-Kept false row_id ct n table rows kept h = set_val-Kept row_id ct kept h

  module _ (aead : IsAead o)
      (drawn : (k : ℕ) → (length (run.random k) ≡ 12) × All IsByte (run.random k)) where
    write_row-Kept :
        (k : ℕ) (r : Row) (plaintext : Text) (n : Counts) (table rows : List Row)
        → IsKeyOf table r
        → old_decrypt o run r.val ≡ ok (some plaintext)
        → Kept table rows
        → Kept table (write_row o run r.id (new_encrypt o run (run.random k) plaintext) n rows).1
    unfolding new_encrypt
    write_row-Kept k r plaintext n table rows key is kept =
        by_ciphertext (new_encrypt o run (run.random k) plaintext) refl
      where
        by_ciphertext :
            (x : Result (Option Text))
            → new_encrypt o run (run.random k) plaintext ≡ x
            → Kept table (write_row o run r.id x n rows).1
        by_ciphertext (err e) m = kept
        by_ciphertext (ok ct) m =
            let stays = encrypt-kept o run.environ (run.random k) plaintext run.new in
            let (form, again) =
              decrypt-encrypt o aead run.environ run.environ (run.random k) plaintext ct
                (some run.new) (drawn k).0 (drawn k).1 m in
            write-Kept run.dry_run r.id ct (rotate n) table rows kept (
              All-map
                (λ t f found. (plaintext, ap (old_decrypt o run) (f found) ∙ is, rw stays at again))
                table key)

    -- A row whose secret cannot be decrypted is left.
    left-Kept :
        (b : Bool) (m n : Counts) (table rows : List Row)
        → Kept table rows
        → Kept table ((if b then pure m else pure n) rows).1
    left-Kept true m n table rows kept = kept
    left-Kept false m n table rows kept = kept

    rotate_row-Kept :
        (k : ℕ) (r : Row) (n : Counts) (table rows : List Row)
        → IsKeyOf table r
        → Kept table rows
        → Kept table (rotate_row o run k r n rows).1
    unfolding rotate_row
    rotate_row-Kept k r n table rows key kept = by_val r.val refl
      where
        by_plaintext :
            (x : Result (Option Text))
            → old_decrypt o run r.val ≡ x
            → Kept table (rotate_plaintext o run k r.id x n rows).1
        by_plaintext (err e) is =
            left-Kept run.skip_undecryptable (skip n) (fail r.id n) table rows kept
        by_plaintext (ok none) is = kept
        by_plaintext (ok (some plaintext)) is =
            write_row-Kept k r plaintext n table rows key is kept

        by_val : (v : Option Text) → r.val ≡ v → Kept table (rotate_val o run k r.id v n rows).1
        by_val none is = kept
        by_val (some []) is = kept
        by_val (some (c ∷ ct)) is =
            by_plaintext (old_decrypt o run (some (c ∷ ct))) (ap (old_decrypt o run) is)

    rotate_rows-Kept :
        (k : ℕ) (todo : List Row) (n : Counts) (table rows : List Row)
        → All (IsKeyOf table) todo
        → Kept table rows
        → Kept table (rotate_rows o run k todo n rows).1
    unfolding rotate_rows
    rotate_rows-Kept k [] n table rows keys kept = kept
    rotate_rows-Kept k (r ∷ todo) n table rows (key, keys) kept =
        by_counts (rotate_row o run k r n rows).0 (rotate_row o run k r n rows).1
          (rotate_row-Kept k r n table rows key kept)
          (λ m u h. rotate_rows-Kept (k + 1) todo m table u keys h)
      where
        by_counts :
            (x : Result Counts) (u : List Row)
            → Kept table u
            → ((m : Counts) (w : List Row)
                → Kept table w
                → Kept table (rotate_rows o run (k + 1) todo m w).1)
            → Kept table (continue x (rotate_rows o run (k + 1) todo) u).1
        by_counts (err e) u h ih = h
        by_counts (ok m) u h ih = ih m u h

    -- In a table where rows with one identifier have one value, a run of `_rotate_table` keeps every
    -- row in its place, with the value that it had, or with a ciphertext that the vault of the new
    -- key decrypts to what the vault of the old key has made of the value before. Of AES-GCM it is
    -- taken that it keeps its promises, and of os.urandom that it gives twelve bytes.
    pub rotate_table-Kept :
        (table : List Row) → All (IsKeyOf table) table → Kept table (rotate_table o run table).1
    unfolding rotate_table
    rotate_table-Kept table keys =
        rotate_rows-Kept 0 table (record { rotated = 0; skipped = 0; failures = [] }) table table
          keys (Kept-refl table)
