-- ===== src/JobControl/Batch/Pages.antt =====
-- internal/jobcontrol/batch.go and database/queries/torrents.sql: pages of a table by a cursor.
use hexmagnet.Prelude.{
  ℕ, zero, suc, ◌≡◌, refl, sym, ◌∙◌, ap, subst, Bool, true, false, ◌&&◌, leb, Bool-cases, inl, inr,
  List, [], ◌∷◌, take, drop, All, All-mono, arith,
}
use hexmagnet.JobControl.Batch.{Row, Bytes, lt_bytes, after, select, rows_after, last_row}

-- In the order of the query, no two rows alike.
abbrev pub Sorted : List Row → Type 0
Sorted [] = Unit
Sorted (x ∷ xs) = All (λ y. after x.created_at x.info_hash y ≡ true) xs × Sorted xs

lt_bytes_irrefl : (a : Bytes) → lt_bytes a a ≡ false
lt_bytes_irrefl [] = refl
lt_bytes_irrefl (x ∷ a) = ground (arith, lt_bytes_irrefl a)

lt_bytes_trans : (a b c : Bytes) → lt_bytes a b ≡ true → lt_bytes b c ≡ true → lt_bytes a c ≡ true
lt_bytes_trans [] [] c h k = cc
lt_bytes_trans [] (y ∷ b) [] h k = cc
lt_bytes_trans [] (y ∷ b) (z ∷ c) h k = refl
lt_bytes_trans (x ∷ a) [] c h k = cc
lt_bytes_trans (x ∷ a) (y ∷ b) [] h k = cc
lt_bytes_trans (x ∷ a) (y ∷ b) (z ∷ c) h k = ground (arith, lt_bytes_trans a b c)

pub after_irrefl : (x : Row) → after x.created_at x.info_hash x ≡ false
after_irrefl x = ground (arith, lt_bytes_irrefl x.info_hash)

pub after_trans :
    (created_at : ℕ) (info_hash : Bytes) (x y : Row)
    → after created_at info_hash x ≡ true
    → after x.created_at x.info_hash y ≡ true
    → after created_at info_hash y ≡ true
after_trans created_at info_hash x y h k =
    ground (arith, lt_bytes_trans info_hash x.info_hash y.info_hash)

after_asym :
    (x y : Row) → after x.created_at x.info_hash y ≡ true → after y.created_at y.info_hash x ≡ false
after_asym x y h = elim (Bool-cases (after y.created_at y.info_hash x)) [
  | inr e ↦ e
  | inl e ↦ absurd (clash (sym (after_irrefl x) ∙ after_trans x.created_at x.info_hash y x h e))
]
  where
    clash : false ≡ true → ⊥
    clash e = cc

pub select-All :
    (P : Row → Type 0) (p : Row → Bool) (xs : List Row) → All P xs → All P (select p xs)
select-All P p [] h = tt
select-All P p (x ∷ xs) h = elim (Bool-cases (p x)) [
  | inl e ↦ rw e (h.0, select-All P p xs h.1)
  | inr e ↦ rw e (select-All P p xs h.1)
]

pub select-Sorted : (p : Row → Bool) (xs : List Row) → Sorted xs → Sorted (select p xs)
select-Sorted p [] h = tt
select-Sorted p (x ∷ xs) h = elim (Bool-cases (p x)) [
  | inl e ↦
      rw e
        (select-All (λ y. after x.created_at x.info_hash y ≡ true) p xs h.0, select-Sorted p xs h.1)
  | inr e ↦ rw e (select-Sorted p xs h.1)
]

-- A stricter choice from what was chosen.
pub select-select :
    (p q : Row → Bool) (xs : List Row)
    → ((x : Row) → q x ≡ true → p x ≡ true)
    → select q (select p xs) ≡ select q xs
select-select p q [] h = refl
select-select p q (x ∷ xs) h = elim (Bool-cases (p x)) [
  | inl e ↦ elim (Bool-cases (q x)) [
    | inl f ↦ rw (e, f) (ap (λ t. x ∷ t) (select-select p q xs h))
    | inr f ↦ rw (e, f) (select-select p q xs h)
  ]
  | inr e ↦ elim (Bool-cases (q x)) [
    | inl f ↦ absurd (clash (sym e ∙ h x f))
    | inr f ↦ rw (e, f) (select-select p q xs h)
  ]
]
  where
    clash : false ≡ true → ⊥
    clash e = cc

select_whole : (p : Row → Bool) (xs : List Row) → All (λ y. p y ≡ true) xs → select p xs ≡ xs
select_whole p [] h = refl
select_whole p (x ∷ xs) h = rw h.0 (ap (λ t. x ∷ t) (select_whole p xs h.1))

-- The last row of a page is a row.
pub All-last_row :
    (P : Row → Type 0) (n : ℕ) (y : Row) (ys : List Row)
    → All P (y ∷ ys)
    → P (last_row y (take n ys))
All-last_row P zero y ys h = h.0
All-last_row P (suc n) y [] h = h.0
All-last_row P (suc n) y (z ∷ ys) h = All-last_row P n z ys h.1

-- What stands after the last row of a page is what the page leaves.
pub select-last_row :
    (n : ℕ) (x : Row) (xs : List Row)
    → Sorted (x ∷ xs)
    → select (after (last_row x (take n xs)).created_at (last_row x (take n xs)).info_hash) (x ∷ xs)
      ≡ drop n xs
select-last_row zero x xs h =
    rw (after_irrefl x) (select_whole (after x.created_at x.info_hash) xs h.0)
select-last_row (suc n) x [] h = rw (after_irrefl x) refl
select-last_row (suc n) x (y ∷ xs) h =
    rw
      (after_asym x (last_row y (take n xs))
        (All-last_row (λ z. after x.created_at x.info_hash z ≡ true) n y xs h.0))
      (select-last_row n y xs h.1)

-- What is chosen has what it was chosen for.
select-chosen : (p : Row → Bool) (xs : List Row) → All (λ y. p y ≡ true) (select p xs)
select-chosen p [] = tt
select-chosen p (x ∷ xs) = elim (Bool-cases (p x)) [
  | inl e ↦ rw e (e, select-chosen p xs)
  | inr e ↦ rw e (select-chosen p xs)
]

select_same :
    (p q : Row → Bool) (xs : List Row) → All (λ y. p y ≡ q y) xs → select p xs ≡ select q xs
select_same p q [] h = refl
select_same p q (x ∷ xs) h = rw (h.0, select_same p q xs h.1) refl

abbrev chosen : ℕ → ℕ → Bytes → Row → Bool
chosen barrier created_at info_hash row =
    leb row.created_at barrier && after created_at info_hash row

-- Pages follow each other without a gap.
pub rows_after-last_row :
    (table : List Row) (barrier created_at : ℕ) (info_hash : Bytes) (n : ℕ) (x : Row)
    (xs : List Row)
    → Sorted table
    → rows_after table barrier created_at info_hash ≡ x ∷ xs
    → rows_after table barrier
        (last_row x (take n xs)).created_at
        (last_row x (take n xs)).info_hash
      ≡ drop n xs
rows_after-last_row table barrier created_at info_hash n x xs s e =
    sym (select-select (chosen barrier created_at info_hash) next table stricter)
    ∙ (ap (select next) e
        ∙ (select_same next (after last.created_at last.info_hash) (x ∷ xs) below
            ∙ select-last_row n x xs
                (subst Sorted e (select-Sorted (chosen barrier created_at info_hash) table s))))
  where
    last : Row
    last = last_row x (take n xs)

    next : Row → Bool
    next = chosen barrier last.created_at last.info_hash

    all_chosen : All (λ y. chosen barrier created_at info_hash y ≡ true) (x ∷ xs)
    all_chosen =
        subst (All (λ y. chosen barrier created_at info_hash y ≡ true)) e
          (select-chosen (chosen barrier created_at info_hash) table)

    reached : chosen barrier created_at info_hash last ≡ true
    reached = All-last_row (λ y. chosen barrier created_at info_hash y ≡ true) n x xs all_chosen

    second : (a b : Bool) → (a && b) ≡ true → b ≡ true
    second true b h = h
    second false b h = cc

    first : (a b : Bool) → (a && b) ≡ true → a ≡ true
    first true b h = refl
    first false b h = cc

    stricter : (y : Row) → next y ≡ true → chosen barrier created_at info_hash y ≡ true
    stricter y h =
        rw (first (leb y.created_at barrier) (after last.created_at last.info_hash y) h) (
          after_trans created_at info_hash last y
            (second (leb last.created_at barrier) (after created_at info_hash last) reached)
            (second (leb y.created_at barrier) (after last.created_at last.info_hash y) h))

    below : All (λ y. next y ≡ after last.created_at last.info_hash y) (x ∷ xs)
    below =
        All-mono (λ y. chosen barrier created_at info_hash y ≡ true)
          (λ y. next y ≡ after last.created_at last.info_hash y) (x ∷ xs)
          (λ y h. rw (first (leb y.created_at barrier) (after created_at info_hash y) h) refl)
          all_chosen
