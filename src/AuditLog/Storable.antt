-- ===== src/AuditLog/Storable.antt =====
-- Which events the audit log can write.
use provable_ai.Canonical.Accepts.{IsCanonical}
use provable_ai.Canonical.Encodable.{IsEncodable}
use provable_ai.Base.{
  ℕ, List, ◌++◌, ◌≡◌, ◌∷◌, some, [], ◌+◌, Option, arith, none, true, false, ◌≤◌, ◌<◌, ◌↔◌, ltb,
  ltb→lt, Bool, not, ◌&&◌, if◌then◌else◌,
}
use provable_ai.AuditLog.{
  content, Event, Text, ℕ, List, AuditRow, some, [], number_taken, fits_int64, int64_limit,
  result_allowed, insert_row, Option, max_sequence, rows_of, opt_str, ℤ, opt_int, new_row, false,
  true,
}

pub opt_str-IsCanonical : (o : Option Text) → IsCanonical (opt_str o)
opt_str-IsCanonical none = tt
opt_str-IsCanonical (some t) = tt

opt_int-IsCanonical : (o : Option ℤ) → IsCanonical (opt_int o)
opt_int-IsCanonical none = tt
opt_int-IsCanonical (some n) = tt

pub content-IsCanonical : (e : Event) (n : ℕ) → IsCanonical (content e n)
unfolding content
content-IsCanonical e n = (
  tt,
  (
    tt,
    (
      opt_str-IsCanonical e.instance_id,
      (
        opt_int-IsCanonical e.sequence_id,
        (
          tt,
          (
            opt_str-IsCanonical e.proof_id,
            (
              tt,
              (
                tt,
                (
                  opt_str-IsCanonical e.failure_code,
                  (
                    opt_str-IsCanonical e.failure_msg,
                    (
                      opt_str-IsCanonical e.key_id,
                      (opt_str-IsCanonical e.governance_json, (tt, tt)),
                    ),
                  ),
                ),
              ),
            ),
          ),
        ),
      ),
    ),
  ),
)

taken-le-max : (n : ℕ) (rs : List AuditRow) → number_taken n rs ≡ true → n ≤ max_sequence rs
unfolding number_taken max_sequence
taken-le-max n [] h = cc
taken-le-max n (r ∷ rs) h = ground (arith, taken-le-max n rs)

-- The number that the next row of the tenant gets.
abbrev pub next_number : List AuditRow → Event → ℕ
next_number rows e = max_sequence (rows_of e.tenant_id rows) + 1

next_number-free :
    (rows : List AuditRow) (e : Event)
    → number_taken (next_number rows e) (rows_of e.tenant_id rows) ≡ false
next_number-free rows e =
    ground (arith, taken-le-max (next_number rows e) (rows_of e.tenant_id rows))

-- An event that can be written: its content can be encoded, its numbers have 64 bits, and its
-- result is one of the two that the table allows.
abbrev pub IsStorable : List AuditRow → Event → Type 0
IsStorable rows e =
    IsEncodable (content e (next_number rows e))
    × (fits_int64 e.sequence_id ≡ true)
    × (next_number rows e < int64_limit)
    × (result_allowed e.result ≡ true)

gate :
    (a b d : Bool) {x y : List AuditRow}
    → ((if a && b && d && not false then some x else none) ≡ some y)
      ↔ (((a ≡ true) × (b ≡ true) × (d ≡ true)) × (x ≡ y))
gate true true true = ground arith
gate true true false = ground arith
gate true false d = ground arith
gate false b d = ground arith

pub insert_row-storable :
    (rows : List AuditRow) (e : Event) (row_hash prev chain_hash : Text) (after : List AuditRow)
    → let r = new_row rows e (next_number rows e) row_hash prev chain_hash in
      (insert_row rows r ≡ some after) ↔ (
        ((fits_int64 e.sequence_id ≡ true)
          × (next_number rows e < int64_limit)
          × (result_allowed e.result ≡ true))
        × (rows ++ r ∷ [] ≡ after))
unfolding insert_row
insert_row-storable rows e row_hash prev chain_hash after =
    let gated =
      gate (fits_int64 e.sequence_id) (ltb (next_number rows e) int64_limit)
        (result_allowed e.result)
        {x = rows ++ new_row rows e (next_number rows e) row_hash prev chain_hash ∷ []}
        {y = after} in
    rw (next_number-free rows e) (
      λ h. let ((a, b, d), x) = gated.0 h in ((a, ltb→lt _ _ b, d), x),
      λ ((a, b, d), x). gated.1 ((a, ground (arith, b), d), x),
    )
