-- ===== src/Tests/Records.antt =====
-- The theorems on references, pending records, results and the store at concrete inputs.
use updater.Common.{
  ◌≡◌, refl, ◌↔◌, ◌⊎◌, none, some, List, [], ◌∷◌, ◌++◌, In, ok, Text, codes, trim_space,
  text_functions, sort_texts,
}
use updater.Types.{ImageUpdateRecord, image_ref, new_image_ref}
use updater.Types.Record.{IsVersionChange, new_image_ref_cases}
use updater.Refs.{pullable_image_ref}
use updater.Refs.Pullable.{IsChoice, pullable_image_ref-IsChoice}
use updater.MemoryStore.{new_memory_pending_store, pending_image_updates, memory_pending_store_key}
use updater.MemoryStore.Laws.{latest, clear_all, pending-clear_all-new}
use updater.Tests.Data.{lib, web_record}

new_image_ref_cases_example :
    ((trim_space web_record.repository ≡ [])
      × (new_image_ref web_record ≡ [])
      × (image_ref web_record ≡ []))
    ⊎ (((version : Text) × IsVersionChange web_record version
          × (new_image_ref web_record ≡ trim_space web_record.repository ++ (codes ":" ++ version)))
        ⊎ (((version : Text) → ¬ IsVersionChange web_record version)
            × (new_image_ref web_record ≡ image_ref web_record)))
new_image_ref_cases_example = new_image_ref_cases web_record

abbrev some_tags : List Text
some_tags = codes "<none>:<none>" ∷ codes "web:1" ∷ []

pullable_image_ref-IsChoice_example :
    IsChoice lib
      (codes "sha256:0")
      (codes "web@sha256:0")
      some_tags
      (pullable_image_ref lib (codes "sha256:0") (codes "web@sha256:0") some_tags)
pullable_image_ref-IsChoice_example =
    pullable_image_ref-IsChoice lib (codes "sha256:0") (codes "web@sha256:0") some_tags

abbrev old_record : ImageUpdateRecord
old_record = record web_record { tag = codes "0" }

abbrev listed_records : List ImageUpdateRecord
listed_records = web_record ∷ []

listed_now :
    pending_image_updates none
      (clear_all [] (new_memory_pending_store (old_record ∷ web_record ∷ [])))
    ≡ ok listed_records
unfolding pending_image_updates clear_all new_memory_pending_store memory_pending_store_key
    sort_texts text_functions
listed_now = refl

pending-clear_all-new_example : In web_record listed_records ↔ (
    (latest (old_record ∷ web_record ∷ []) (memory_pending_store_key web_record) ≡ some web_record)
    × (¬ In (memory_pending_store_key web_record) []))
pending-clear_all-new_example =
    pending-clear_all-new (old_record ∷ web_record ∷ []) [] listed_records web_record listed_now
