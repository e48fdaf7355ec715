-- ===== src/KeyRegistry/Rows.antt =====
-- The queries of the registry after a row was appended.
use provable_ai.Base.{
  Option, List, some, Bool, ◌≡◌, none, ◌++◌, ◌∷◌, true, false, [], Bool-cases, refl, inl, ap, inr,
  arith, Option-cases, subst, sym,
}
use provable_ai.KeyRegistry.{last_where, first_where, keys_of, Text, Option, KeyRow, text_eq}

pub last_where-append :
    (p : KeyRow → Bool) (rows : List KeyRow) (r : KeyRow)
    → p r ≡ true
    → last_where p (rows ++ r ∷ []) ≡ some r
unfolding last_where
last_where-append p [] r h = rw h refl
last_where-append p (s ∷ rows) r h = rw (last_where-append p rows r h) refl

pub last_where-skip :
    (p : KeyRow → Bool) (rows : List KeyRow) (r : KeyRow)
    → p r ≡ false
    → last_where p (rows ++ r ∷ []) ≡ last_where p rows
unfolding last_where
last_where-skip p [] r h = rw h refl
last_where-skip p (s ∷ rows) r h = rw (last_where-skip p rows r h) refl

-- A row further back is found first only where no earlier one is.
abbrev pub or_else : Option KeyRow → Option KeyRow → Option KeyRow
or_else none o = o
or_else (some r) o = some r

pub first_where-append :
    (p : KeyRow → Bool) (rows more : List KeyRow)
    → first_where p (rows ++ more) ≡ or_else (first_where p rows) (first_where p more)
unfolding first_where
first_where-append p [] more = refl
first_where-append p (s ∷ rows) more = elim (Bool-cases (p s)) [
  | inl here ↦ rw here refl
  | inr other ↦ rw other (first_where-append p rows more)
]

pub first_where-skip :
    (p : KeyRow → Bool) (rows : List KeyRow) (r : KeyRow)
    → p r ≡ false
    → first_where p (rows ++ r ∷ []) ≡ first_where p rows
unfolding first_where
first_where-skip p [] r h = rw h refl
first_where-skip p (s ∷ rows) r h = rw (first_where-skip p rows r h) refl

pub keys_of-own :
    (t : Text) (rows : List KeyRow) (r : KeyRow)
    → text_eq r.key.tenant_id t ≡ true
    → keys_of t (rows ++ r ∷ []) ≡ keys_of t rows ++ r ∷ []
unfolding keys_of
keys_of-own t [] r h = rw h refl
keys_of-own t (s ∷ rows) r h = elim (Bool-cases (text_eq s.key.tenant_id t)) [
  | inl here ↦ rw here (ap (λ rs. s ∷ rs) (keys_of-own t rows r h))
  | inr other ↦ rw other (keys_of-own t rows r h)
]

pub keys_of-other :
    (t : Text) (rows : List KeyRow) (r : KeyRow)
    → text_eq r.key.tenant_id t ≡ false
    → keys_of t (rows ++ r ∷ []) ≡ keys_of t rows
unfolding keys_of
keys_of-other t [] r h = rw h refl
keys_of-other t (s ∷ rows) r h = rw (keys_of-other t rows r h) refl

-- A row that a query found.
pub last_where-holds :
    (p : KeyRow → Bool) (rows : List KeyRow) {r : KeyRow} → last_where p rows ≡ some r → p r ≡ true
unfolding last_where
last_where-holds p [] h = absurd (ground arith)
last_where-holds p (s ∷ rows) {r} h = elim (Option-cases (last_where p rows)) [
  | inr (x, later) ↦
      let same : x ≡ r = ground (arith, later) in
      subst (λ y. p y ≡ true) same (last_where-holds p rows later)
  | inl none_later ↦
      let here : p s ≡ true = ground (arith, none_later) in
      let same : s ≡ r = ground (arith, none_later, here) in subst (λ y. p y ≡ true) same here
]

-- A row that one query found is not one that another query missed.
pub first_where-missed :
    (p q : KeyRow → Bool) (rows : List KeyRow) {r : KeyRow}
    → last_where p rows ≡ some r
    → first_where q rows ≡ none
    → q r ≡ false
unfolding last_where first_where
first_where-missed p q [] h none_found = absurd (ground arith)
first_where-missed p q (s ∷ rows) {r} h none_found =
    let not_here : q s ≡ false = ground arith in
    elim (Option-cases (last_where p rows)) [
      | inr (x, later) ↦
          let same : last_where p rows ≡ some r = ground (arith, later) in
          first_where-missed p q rows same (ground (arith, not_here))
      | inl none_later ↦
          let same : s ≡ r = ground (arith, none_later) in subst (λ y. q y ≡ false) same not_here
    ]

last_where-none :
    (p q : KeyRow → Bool) (rows : List KeyRow)
    → ((s : KeyRow) → q s ≡ true → p s ≡ true)
    → last_where p rows ≡ none
    → last_where q rows ≡ none
unfolding last_where
last_where-none p q [] wider h = refl
last_where-none p q (s ∷ rows) wider h =
    let later : last_where p rows ≡ none = ground arith in
    let not_here : p s ≡ false = ground (arith, later) in
    let not_narrow : q s ≡ false = ground (arith, wider s, not_here) in
    rw (last_where-none p q rows wider later) (rw not_narrow refl)

-- The last row of a wider query is that of a narrower one which it fits.
pub last_where-narrow :
    (p q : KeyRow → Bool) (rows : List KeyRow) {r : KeyRow}
    → ((s : KeyRow) → q s ≡ true → p s ≡ true)
    → last_where p rows ≡ some r
    → q r ≡ true
    → last_where q rows ≡ some r
unfolding last_where
last_where-narrow p q [] wider h fits = absurd (ground arith)
last_where-narrow p q (s ∷ rows) {r} wider h fits = elim (Option-cases (last_where p rows)) [
  | inr (x, later) ↦
      let same : last_where p rows ≡ some r = ground (arith, later) in
      rw (last_where-narrow p q rows wider same fits) refl
  | inl none_later ↦
      let same : s ≡ r = ground (arith, none_later) in
      let here : q s ≡ true = subst (λ y. q y ≡ true) (sym same) fits in
      rw (last_where-none p q rows wider none_later) (rw here (ap some same))
]
