-- ===== src/AuditLog/Record.antt =====
-- What record does: the new row extends the tenant's chain, and no other tenant's.
use provable_ai.Text.{text_eq→eq}
use provable_ai.Canonical.Hashes.{fromhex-hexdigest, fromhex-genesis}
use provable_ai.AuditLog.Storable.{
  content-IsCanonical, next_number, IsStorable, insert_row-storable,
}
use provable_ai.AuditLog.Chain.{IsIntact, IsRow}
use provable_ai.Canonical.Encodable.{IsEncodable-dump_bytes, dump_bytes-some}
use provable_ai.Base.Result.{ok, Result-cases}
use provable_ai.Base.{
  ℕ, List, ◌++◌, ◌≡◌, ◌∷◌, some, [], ap, ◌∙◌, ◌+◌, arith, Bool-cases, length, ◌⊎◌, inl, inr, refl,
  replicate, true, false, subst, sym, ◌↔◌,
}
use provable_ai.AuditLog.{
  latest_hash, content, Crypto, Event, Text, ℕ, List, AuditRow, Bytes, fromhex, some, [],
  insert_row, dump_bytes, max_sequence, genesis_hash, record_event, rows_of, compute_row_hash,
  length, compute_chain_hash, text_eq, get_latest_chain_hash, hexdigest, new_row, false, true,
}

append-IsIntact :
    (c : Crypto) (prev : Text) (rs : List AuditRow) (r : AuditRow)
    → IsIntact c prev rs
    → IsRow c (latest_hash prev rs) r
    → IsIntact c prev (rs ++ r ∷ [])
unfolding latest_hash
append-IsIntact c prev [] r h here = (here, tt)
append-IsIntact c prev (s ∷ rs) r (first, h) here =
    (first, append-IsIntact c s.chain_hash rs r h here)

latest-readable :
    (c : Crypto) (prev : Text) (rs : List AuditRow)
    → ((b : Bytes) × (fromhex prev ≡ some b))
    → IsIntact c prev rs
    → (b : Bytes) × (fromhex (latest_hash prev rs) ≡ some b)
unfolding latest_hash
latest-readable c prev [] readable h = readable
latest-readable c prev (r ∷ rs) readable (here, h) =
    latest-readable c r.chain_hash rs
      (
        c.sha256 (here.before ++ c.sha256 here.bytes),
        ap fromhex here.chain ∙ fromhex-hexdigest c (here.before ++ c.sha256 here.bytes),
      )
      h

-- Numbered without a gap, after `n`.
abbrev pub IsNumbered : ℕ → List AuditRow → Type 0
IsNumbered n [] = Unit
IsNumbered n (r ∷ rs) = (r.sequence_num ≡ n + 1) × IsNumbered (n + 1) rs

max-IsNumbered :
    (n : ℕ) (rs : List AuditRow)
    → IsNumbered n rs
    → ((max_sequence rs ≡ 0) × (length rs ≡ 0)) ⊎ (max_sequence rs ≡ n + length rs)
unfolding max_sequence
max-IsNumbered n [] h = inl (refl, refl)
max-IsNumbered n (r ∷ rs) (here, h) = inr (ground (arith, max-IsNumbered (n + 1) rs h))

append-IsNumbered :
    (n : ℕ) (rs : List AuditRow) (r : AuditRow)
    → IsNumbered n rs
    → r.sequence_num ≡ n + length rs + 1
    → IsNumbered n (rs ++ r ∷ [])
append-IsNumbered n [] r h e = (omega (arith, e), tt)
append-IsNumbered n (s ∷ rs) r (first, h) e =
    (first, append-IsNumbered (n + 1) rs r h (omega (arith, e)))

-- A tenant's rows: chained from the genesis hash, and numbered from 1 without a gap.
abbrev pub IsLog : Crypto → List AuditRow → Type 0
IsLog c rs = IsIntact c genesis_hash rs × IsNumbered 0 rs

append-IsLog :
    (c : Crypto) (rs : List AuditRow) (r : AuditRow)
    → IsLog c rs
    → IsRow c (latest_hash genesis_hash rs) r
    → r.sequence_num ≡ max_sequence rs + 1
    → IsLog c (rs ++ r ∷ [])
append-IsLog c rs r (h, numbered) here e = (
  append-IsIntact c genesis_hash rs r h here,
  append-IsNumbered 0 rs r numbered (ground (arith, max-IsNumbered 0 rs numbered)),
)

abbrev appended : Crypto → List AuditRow → Event → Bytes → Bytes → AuditRow
appended c rows e b before =
    new_row rows e (next_number rows e) (hexdigest c b) (get_latest_chain_hash e.tenant_id rows)
      (hexdigest c (before ++ c.sha256 b))

-- What `record` does where the tenant's chain can be read.
record_event-step :
    (c : Crypto) (rows : List AuditRow) (e : Event) (before : Bytes)
    → fromhex (get_latest_chain_hash e.tenant_id rows) ≡ some before
    → (b : Bytes) → dump_bytes (content e (next_number rows e)) ≡ ok b
    → record_event c rows e ≡ insert_row rows (appended c rows e b before)
unfolding record_event compute_row_hash compute_chain_hash
record_event-step c rows e before readable b dumped =
    rw dumped (rw readable (rw (fromhex-hexdigest c b) refl))

rows_of-more :
    (u : Text) (rows : List AuditRow) (r : AuditRow)
    → text_eq r.event.tenant_id u ≡ true
    → rows_of u (rows ++ r ∷ []) ≡ rows_of u rows ++ r ∷ []
unfolding rows_of
rows_of-more u [] r e = ground arith
rows_of-more u (x ∷ rows) r e = ground (arith, rows_of-more u rows r e)

rows_of-others :
    (u : Text) (rows : List AuditRow) (r : AuditRow)
    → text_eq r.event.tenant_id u ≡ false
    → rows_of u (rows ++ r ∷ []) ≡ rows_of u rows
unfolding rows_of
rows_of-others u [] r e = ground arith
rows_of-others u (x ∷ rows) r e = ground (arith, rows_of-others u rows r e)

extend-IsLog :
    (c : Crypto) (rows : List AuditRow) (r : AuditRow) (u : Text)
    → IsLog c (rows_of u rows)
    → IsRow c (get_latest_chain_hash r.event.tenant_id rows) r
    → r.sequence_num ≡ max_sequence (rows_of r.event.tenant_id rows) + 1
    → IsLog c (rows_of u (rows ++ r ∷ []))
extend-IsLog c rows r u h here e = elim (Bool-cases (text_eq r.event.tenant_id u)) [
  | inl same ↦
      let tenant = text_eq→eq r.event.tenant_id u same in
      subst (IsLog c) (sym (rows_of-more u rows r same)) (
        append-IsLog c (rows_of u rows) r h
          (subst (λ v. IsRow c (get_latest_chain_hash v rows) r) tenant here)
          (subst (λ v. r.sequence_num ≡ max_sequence (rows_of v rows) + 1) tenant e))
  | inr other ↦ subst (IsLog c) (sym (rows_of-others u rows r other)) h
]

record_event-some :
    (c : Crypto) (rows : List AuditRow) (e : Event) (before : Bytes)
    → fromhex (get_latest_chain_hash e.tenant_id rows) ≡ some before
    → (after : List AuditRow) → record_event c rows e ≡ some after
    → (b : Bytes) × (dump_bytes (content e (next_number rows e)) ≡ ok b)
      × (insert_row rows (appended c rows e b before) ≡ some after)
unfolding record_event compute_row_hash
record_event-some c rows e before readable after h =
    elim (Result-cases (dump_bytes (content e (next_number rows e)))) [
      | inl (b, dumped) ↦ (b, dumped, sym (record_event-step c rows e before readable b dumped) ∙ h)
      | inr (x, refused) ↦ absurd (ground (arith, h, refused))
    ]

appended-IsRow :
    (c : Crypto) (rows : List AuditRow) (e : Event) (b before : Bytes)
    → fromhex (get_latest_chain_hash e.tenant_id rows) ≡ some before
    → dump_bytes (content e (next_number rows e)) ≡ ok b
    → IsRow c (get_latest_chain_hash e.tenant_id rows) (appended c rows e b before)
appended-IsRow c rows e b before readable dumped = record {
  bytes = b;
  dumped = dumped;
  before = before;
  readable = readable;
  row = refl;
  chain = refl;
}

-- Where the rows of every tenant are chained and numbered: `record` returns exactly if its event can
-- be written, that is if the dict that is hashed can be encoded, its sequence_id and the number of
-- the new row have 64 bits, and its result is one of the two that the table allows. If it returns,
-- it appended one row with the event, and the rows of every tenant are still chained, so that
-- `verify_chain` finds no fault, and numbered from 1 without a gap.
pub record_event-IsLog :
    (c : Crypto) (rows : List AuditRow) (e : Event)
    → ((u : Text) → IsLog c (rows_of u rows))
    → (((after : List AuditRow) × (record_event c rows e ≡ some after)) ↔ IsStorable rows e)
      × ((after : List AuditRow)
          → record_event c rows e ≡ some after
          → (r : AuditRow) × (after ≡ rows ++ r ∷ [])
            × (r.event ≡ e)
            × ((u : Text) → IsLog c (rows_of u after)))
record_event-IsLog c rows e h =
    let (before, readable) =
      latest-readable c genesis_hash (rows_of e.tenant_id rows) (replicate 32 0, fromhex-genesis)
        (h e.tenant_id).0 in
    let number = next_number rows e in
    let storable = λ (b : Bytes).
      insert_row-storable rows e (hexdigest c b) (get_latest_chain_hash e.tenant_id rows)
        (hexdigest c (before ++ c.sha256 b)) in
    (
      (
        λ (after, recorded).
            let (b, dumped, inserted) = record_event-some c rows e before readable after recorded in
            let ((fits, small, allowed), _) = (storable b after).0 inserted in
            (
              (dump_bytes-some _ (content-IsCanonical e number)).0 (b, dumped),
              fits,
              small,
              allowed,
            ),
        λ (encodable, fits, small, allowed).
            let (b, dumped) = IsEncodable-dump_bytes (content e number) encodable in
            (
              rows ++ appended c rows e b before ∷ [],
              record_event-step c rows e before readable b dumped
                  ∙ (storable b (rows ++ appended c rows e b before ∷ [])).1
                      ((fits, small, allowed), refl),
            ),
      ),
      λ after recorded.
          let (b, dumped, inserted) = record_event-some c rows e before readable after recorded in
          let (_, same) = (storable b after).0 inserted in
          let r = appended c rows e b before in
          (
            r,
            sym same,
            refl,
            λ u.
                subst (λ (x : List AuditRow). IsLog c (rows_of u x)) same
                  (extend-IsLog c rows r u (h u) (appended-IsRow c rows e b before readable dumped)
                    refl),
          ),
    )
