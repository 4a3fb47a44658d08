-- ===== src/Secrets/Rotation/Moved.antt =====
-- scripts/rotate_secret_master.py: a run that nothing stops moves every secret to the new key.
use openradiusweb.Prelude.{
  ◌≡◌, refl, ◌∙◌, sym, ap, subst, ℕ, ◌+◌, Bool, true, false, Option, none, some, List, [], ◌∷◌,
  length, All, All-map, Bool-cases, inl, inr, ◌⊎◌,
}
use openradiusweb.Prelude.Text.{Text, text_eq, text_eq_refl}
use openradiusweb.Prelude.Result.{Result, ok}
use openradiusweb.Prelude.Exec.{continue}
use openradiusweb.Coa.Bytes.{IsByte}
use openradiusweb.Secrets.{Crypto}
use openradiusweb.Secrets.RoundTrip.{IsAead, encrypt-kept, decrypt-encrypt}
use openradiusweb.Secrets.Rotation.{
  Row, Counts, Run, rotate, set_val, old_decrypt, new_encrypt, rotate_val, rotate_row, rotate_rows,
  rotate_table,
}
use openradiusweb.Secrets.Rotation.Kept.{
  Pairs, no_pair, pair, SameSecret, IsKeyOf, Kept, Kept-refl, set_val-Kept,
}

abbrev pub is_no_value : Option Text → Bool
is_no_value none = true
is_no_value (some []) = true
is_no_value (some (c ∷ ct)) = false

module _ (o : Crypto) (run : Run) where
  -- A row without a value that is as before, or one whose secret is under the new key.
  abbrev pub Moved : Row → Row → Type 0
  Moved r s =
      (s.id ≡ r.id)
      × (((is_no_value r.val ≡ true) × (s.val ≡ r.val)) ⊎ SameSecret o run r.val s.val)

  -- A row that a run can move: its value decrypts, and the encryption succeeds.
  abbrev pub Movable : Row → Type 0
  Movable r =
      (is_no_value r.val ≡ true)
      ⊎ ((plaintext : Text) × (old_decrypt o run r.val ≡ ok (some plaintext))
          × ((k : ℕ) → (ct : Option Text) × (new_encrypt o run (run.random k) plaintext ≡ ok ct)))

  -- What is true of a row's pairs when its round is over.
  abbrev AtRow : Row → Row → Row → Type 0
  AtRow d t u = text_eq t.id d.id ≡ true → Moved t u

  -- The effects of an UPDATE, on the rows before and on those with its identifier.
  set_val-AtRow :
      (d : Row) (row_id : Text) (ct : Option Text) {table rows : List Row}
      → Pairs (AtRow d) table rows
      → All (λ t. text_eq t.id row_id ≡ true → SameSecret o run t.val ct) table
      → Pairs (AtRow d) table (set_val row_id ct rows)
  unfolding set_val
  set_val-AtRow d row_id ct no_pair h = no_pair
  set_val-AtRow d row_id ct (pair {r} {s} k rest) (g, h) = elim (Bool-cases (text_eq s.id row_id)) [
    | inl e ↦
        rw e (pair (λ f. ((k f).0, inr (g (rw (← (k f).0) e)))) (set_val-AtRow d row_id ct rest h))
    | inr e ↦ rw e (pair k (set_val-AtRow d row_id ct rest h))
  ]

  set_val-here :
      (d : Row) (ct : Option Text) {table rows : List Row}
      → Kept o run table rows
      → All (λ t. text_eq t.id d.id ≡ true → SameSecret o run t.val ct) table
      → Pairs (AtRow d) table (set_val d.id ct rows)
  unfolding set_val
  set_val-here d ct no_pair h = no_pair
  set_val-here d ct (pair {r} {s} (same, k) rest) (g, h) = elim (Bool-cases (text_eq s.id d.id)) [
    | inl e ↦ rw e (pair (λ f. (same, inr (g f))) (set_val-here d ct rest h))
    | inr e ↦
        let other : text_eq r.id d.id ≡ false = rw (← same) e in
        rw e (pair (λ f. let no = rw other at f in cc) (set_val-here d ct rest h))
  ]

  -- Without a value, a row's pairs are as they were.
  unmoved-AtRow :
      (d : Row) {table rows : List Row}
      → is_no_value d.val ≡ true
      → Kept o run table rows
      → IsKeyOf table d
      → Pairs (AtRow d) table rows
  unmoved-AtRow d bare no_pair key = no_pair
  unmoved-AtRow d bare (pair {r} {s} (same, inl e) rest) (k, key) =
      pair (λ f. (same, inl (ap is_no_value (k f) ∙ bare, e))) (unmoved-AtRow d bare rest key)
  unmoved-AtRow d bare (pair {r} {s} (same, inr e) rest) (k, key) =
      pair (λ f. (same, inr e)) (unmoved-AtRow d bare rest key)

  pair_head :
      (P : Row → Row → Type 0) {r s : Row} {rs ss : List Row} → Pairs P (r ∷ rs) (s ∷ ss) → P r s
  pair_head P (pair p _) = p

  pair_tail :
      (P : Row → Row → Type 0) {r s : Row} {rs ss : List Row}
      → Pairs P (r ∷ rs) (s ∷ ss)
      → Pairs P rs ss
  pair_tail P (pair _ q) = q

  -- At the end every row is moved.
  all-Moved :
      {table rows : List Row}
      → Kept o run table rows
      → All (λ d. Pairs (AtRow d) table rows) table
      → Pairs Moved table rows
  all-Moved no_pair h = no_pair
  all-Moved (pair {r} {s} {rs} {ss} k rest) (here, h) =
      pair (pair_head (AtRow r) here (text_eq_refl r.id))
        (all-Moved rest (All-map (λ d x. pair_tail (AtRow d) x) rs h))

  module _ (aead : IsAead o)
      (drawn : (k : ℕ) → (length (run.random k) ≡ 12) × All IsByte (run.random k))
      (for_real : run.dry_run ≡ false) where
    -- A round leaves the table, for a row without a value, or writes the secret of its row.
    data Round (table : List Row) (r : Row) (rows : List Row) (x : Result Counts × List Row)
        : Type 0 where
      leaves : (m : Counts) → is_no_value r.val ≡ true → x ≡ (ok m, rows) → Round table r rows x
      writes :
          (m : Counts) (ct : Option Text)
          → All (λ t. text_eq t.id r.id ≡ true → SameSecret o run t.val ct) table
          → x ≡ (ok m, set_val r.id ct rows)
          → Round table r rows x

    written :
        (k : ℕ) (r : Row) (table : List Row) (plaintext : Text) (ct : Option Text)
        → IsKeyOf table r
        → old_decrypt o run r.val ≡ ok (some plaintext)
        → new_encrypt o run (run.random k) plaintext ≡ ok ct
        → All (λ t. text_eq t.id r.id ≡ true → SameSecret o run t.val ct) table
    unfolding new_encrypt
    written k r table plaintext ct key is m =
        let stays = encrypt-kept o run.environ (run.random k) plaintext run.new in
        let (form, again) =
          decrypt-encrypt o aead run.environ run.environ (run.random k) plaintext ct (some run.new)
            (drawn k).0 (drawn k).1 m in
        All-map (λ t f found. (plaintext, ap (old_decrypt o run) (f found) ∙ is, rw stays at again))
          table key

    rotate_row-Round :
        (k : ℕ) (r : Row) (n : Counts) (table rows : List Row)
        → IsKeyOf table r
        → Movable r
        → Round table r rows (rotate_row o run k r n rows)
    unfolding rotate_row
    rotate_row-Round k r n table rows key h = by_val r.val refl h
      where
        by_val :
            (v : Option Text)
            → r.val ≡ v
            → Movable r
            → Round table r rows (rotate_val o run k r.id v n rows)
        by_val none is g = leaves _ (ap is_no_value is) refl
        by_val (some []) is g = leaves _ (ap is_no_value is) refl
        by_val (some (c ∷ ct)) is (inl bare) = let wrong = rw is at bare in cc
        by_val (some (c ∷ ct)) is (inr (plaintext, opened, sealed)) =
            let (new, m) = sealed k in
            let decrypted = ap (old_decrypt o run) (sym is) ∙ opened in
            writes (rotate n) new (written k r table plaintext new key opened m)
              (rw (decrypted, m, for_real) refl)

    abbrev After : List Row → List Row → List Row → List Row → Type 0
    After passed todo table rows =
        (All (λ d. Pairs (AtRow d) table rows) passed)
        × (All (λ d. Pairs (AtRow d) table rows) todo)
        × Kept o run table rows

    -- The loop, on rows that it has passed and on rows that it has before it.
    rotate_rows-Moved :
        (k : ℕ) (todo : List Row) (n : Counts) (passed table rows : List Row)
        → All (IsKeyOf table) todo
        → All Movable todo
        → All (λ d. Pairs (AtRow d) table rows) passed
        → Kept o run table rows
        → After passed todo table (rotate_rows o run k todo n rows).1
    unfolding rotate_rows
    rotate_rows-Moved k [] n passed table rows keys ms done kept = (done, tt, kept)
    rotate_rows-Moved k (r ∷ todo) n passed table rows (key, keys) (m, ms) done kept =
        by_round (rotate_row-Round k r n table rows key m)
          (λ n' u. rotate_rows-Moved (k + 1) todo n' (r ∷ passed) table u keys ms)
      where
        by_round :
            Round table r rows (rotate_row o run k r n rows)
            → ((n' : Counts) (u : List Row)
                → All (λ d. Pairs (AtRow d) table u) (r ∷ passed)
                → Kept o run table u
                → After (r ∷ passed) todo table (rotate_rows o run (k + 1) todo n' u).1)
            → After passed
                (r ∷ todo)
                table
                (continue
                  (rotate_row o run k r n rows).0
                  (rotate_rows o run (k + 1) todo)
                  (rotate_row o run k r n rows).1).1
        by_round (leaves n' bare e) ih =
            let (before, after, last) = ih n' rows (unmoved-AtRow r bare kept key, done) kept in
            subst
              (λ x.
                After passed (r ∷ todo) table (continue x.0 (rotate_rows o run (k + 1) todo) x.1).1)
              (sym e) (before.1, (before.0, after), last)
        by_round (writes n' ct same e) ih =
            let (before, after, last) =
              ih n' (set_val r.id ct rows)
                (
                  set_val-here r ct kept same,
                  All-map (λ d x. set_val-AtRow d r.id ct x same) passed done,
                )
                (set_val-Kept o run r.id ct kept same) in
            subst
              (λ x.
                After passed (r ∷ todo) table (continue x.0 (rotate_rows o run (k + 1) todo) x.1).1)
              (sym e) (before.1, (before.0, after), last)

    -- Where rows with one identifier have one value, and each row has no value or one that the old
    -- key decrypts and that can be encrypted again, a run that is no dry run leaves every row in its
    -- place, without a value as before, or with a ciphertext that the new key decrypts to what the
    -- old key has made of the value before. Of AES-GCM it is taken that it keeps its promises, and
    -- of os.urandom that it gives twelve bytes.
    pub rotate_table-Moved :
        (table : List Row)
        → All (IsKeyOf table) table
        → All Movable table
        → Pairs Moved table (rotate_table o run table).1
    unfolding rotate_table
    rotate_table-Moved table keys ms =
        let (nothing, all, kept) =
          rotate_rows-Moved 0 table (record { rotated = 0; skipped = 0; failures = [] }) [] table
            table keys ms tt (Kept-refl o run table) in
        all-Moved kept all
