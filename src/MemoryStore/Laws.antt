-- ===== src/MemoryStore/Laws.antt =====
-- What the store in memory promises.
use updater.Common.{
  ◌≡◌, refl, ◌≢◌, ◌↔◌, ◌⊎◌, inl, inr, Bool, true, Option, none, some, List, [], ◌∷◌, map, arith,
  if◌then◌else◌, Option-cases, In, ok, Text, ◌==◌, eq_iff, lookup, insert, delete, lookup-insert,
  lookup-delete, sort_texts, sort_texts-In,
}
use updater.Types.{ImageUpdateRecord}
use updater.MemoryStore.{
  Store, memory_pending_store_key, put_records, new_memory_pending_store, records_at,
  pending_image_updates, clear_image_update_record,
}

-- Every record is stored under its own key.
abbrev pub IsKeyed : Store → Type 0
IsKeyed store =
    (k : Text) (r : ImageUpdateRecord) → lookup store k ≡ some r → memory_pending_store_key r ≡ k

-- The last record of the list with that key.
unfoldable pub latest : List ImageUpdateRecord → Text → Option ImageUpdateRecord
latest [] k = none
latest (r ∷ rs) k = elim (latest rs k) [
  | none ↦ if memory_pending_store_key r == k then some r else none
  | some later ↦ some later
]

abbrev or_else : Option ImageUpdateRecord → Option ImageUpdateRecord → Option ImageUpdateRecord
or_else none o = o
or_else (some r) o = some r

lookup-put_records :
    (store : Store) (rs : List ImageUpdateRecord) (k : Text)
    → lookup (put_records store rs) k ≡ or_else (latest rs k) (lookup store k)
unfolding put_records latest
lookup-put_records store [] k = refl
lookup-put_records store (r ∷ rs) k =
    let key = memory_pending_store_key r in
    ground (arith, lookup-put_records (insert store key r) rs k, lookup-insert store key k r)

put_records-IsKeyed :
    (store : Store) (rs : List ImageUpdateRecord) → IsKeyed store → IsKeyed (put_records store rs)
unfolding put_records
put_records-IsKeyed store [] h = h
put_records-IsKeyed store (r ∷ rs) h =
    put_records-IsKeyed (insert store (memory_pending_store_key r) r) rs λ k x e.
      let key = memory_pending_store_key r in
      ground (arith, h k x, eq_iff key k, lookup-insert store key k r)

-- `ClearImageUpdateRecord` for each record of the list.
unfoldable pub clear_all : List ImageUpdateRecord → Store → Store
clear_all [] store = store
clear_all (r ∷ rs) store = clear_all rs (clear_image_update_record none r store).1

lookup-clear_all :
    (rs : List ImageUpdateRecord) (store : Store) (k : Text) (x : ImageUpdateRecord)
    → (lookup (clear_all rs store) k ≡ some x)
      ↔ ((lookup store k ≡ some x) × (¬ In k (map memory_pending_store_key rs)))
unfolding clear_all clear_image_update_record
lookup-clear_all [] store k x = (λ h. (h, λ m. m), λ p. p.0)
lookup-clear_all (r ∷ rs) store k x =
    let key = memory_pending_store_key r in
    let (to, from) = lookup-clear_all rs (delete store key) k x in
    (
      λ h.
          let (found, absent) = to h in
          (
            ground (arith, lookup-delete store key k),
            λ m. elim m [
              | inl e ↦ absurd (ground (arith, lookup-delete store key k, eq_iff key k))
              | inr l ↦ absent l
            ],
          ),
      λ (found, absent). from (
        apart found (λ e. absent (inl e)) (lookup-delete store key k) (eq_iff key k),
        λ m. absent (inr m),
      ),
    )
  where
    apart :
        {o : Option ImageUpdateRecord} {b : Bool} {key : Text}
        → lookup store k ≡ some x
        → k ≢ key
        → o ≡ (if b then none else lookup store k)
        → (b ≡ true) ↔ (key ≡ k)
        → o ≡ some x
    apart found ne law iff = ground arith

records_at-In :
    (store : Store) (ks : List Text) (r : ImageUpdateRecord)
    → In r (records_at store ks) ↔ ((k : Text) × In k ks × (lookup store k ≡ some r))
unfolding records_at
records_at-In store [] r = (λ h. absurd h, λ (k, m, e). m)
records_at-In store (k ∷ ks) r =
    let (to, from) = records_at-In store ks r in
    elim (Option-cases (lookup store k)) [
      | inl e ↦ (
        λ h. let (j, m, f) = to (rw (e, records_at) at h) in (j, inr m, f),
        λ (j, m, f). elim m [
          | inl same ↦ absurd (ground arith)
          | inr l ↦ rw (e, records_at) (from (j, l, f))
        ],
      )
      | inr (x, e) ↦ (
        λ h.
            let now : (r ≡ x) ⊎ In r (records_at store ks) = rw (e, records_at) at h in
            elim now [
              | inl same ↦ (k, inl refl, ground arith)
              | inr l ↦ let (j, m, f) = to l in (j, inr m, f)
            ],
        λ (j, m, f).
            rw (e, records_at)
              (elim m [ inl same ↦ inl (ground arith) | inr l ↦ inr (from (j, l, f)) ]),
      )
    ]

lookup-keys :
    (store : Store) (k : Text) {r : ImageUpdateRecord}
    → lookup store k ≡ some r
    → In k (map (λ entry. entry.0) store)
unfolding lookup
lookup-keys [] k h = cc
lookup-keys ((j, x) ∷ store) k {r} h = ground (arith, eq_iff j k, lookup-keys store k {r = r})

pending-In :
    (store : Store) (rs : List ImageUpdateRecord) (r : ImageUpdateRecord)
    → IsKeyed store
    → pending_image_updates none store ≡ ok rs
    → In r rs ↔ (lookup store (memory_pending_store_key r) ≡ some r)
unfolding pending_image_updates
pending-In store rs r keyed h =
    let keys = map (λ (entry : Text × ImageUpdateRecord). entry.0) store in
    let same : records_at store (sort_texts keys) ≡ rs = ground arith in
    let (to, from) = records_at-In store (sort_texts keys) r in
    (
      λ m. let (k, _, e) = to (rw same m) in rw (keyed k r e) e,
      λ e.
          rw (← same) (
            from (memory_pending_store_key r, (sort_texts-In _ keys).1 (lookup-keys store _ e), e)),
    )

new-IsKeyed : (records : List ImageUpdateRecord) → IsKeyed (new_memory_pending_store records)
unfolding new_memory_pending_store lookup
new-IsKeyed records = put_records-IsKeyed [] records (λ k r e. cc)

clear_all-IsKeyed :
    (rs : List ImageUpdateRecord) (store : Store) → IsKeyed store → IsKeyed (clear_all rs store)
clear_all-IsKeyed rs store h k r e = h k r ((lookup-clear_all rs store k r).0 e).0

-- A store that was made of some records, and from which others were cleared, lists a record
-- exactly if it is the last of the given records with its key, and no cleared record has that key.
pub pending-clear_all-new :
    (records cleared listed : List ImageUpdateRecord) (r : ImageUpdateRecord)
    → pending_image_updates none (clear_all cleared (new_memory_pending_store records)) ≡ ok listed
    → In r listed ↔ (
        (latest records (memory_pending_store_key r) ≡ some r)
        × (¬ In (memory_pending_store_key r) (map memory_pending_store_key cleared)))
unfolding new_memory_pending_store lookup
pending-clear_all-new records cleared listed r h =
    let key = memory_pending_store_key r in
    let store = new_memory_pending_store records in
    let (to, from) =
      pending-In (clear_all cleared store) listed r
        (clear_all-IsKeyed cleared store (new-IsKeyed records)) h in
    let (to', from') = lookup-clear_all cleared store key r in
    let law : lookup store key ≡ or_else (latest records key) none =
      lookup-put_records [] records key in
    (
      λ m. let (found, absent) = to' (to m) in (ground (arith, found, law), absent),
      λ (last, absent). from (from' (ground (arith, law), absent)),
    )
