-- ===== src/Types.antt =====
-- types.go and constants.go: the records of the public interface. The clock times of a result and
-- of a record, and the `Details` of a result, which no code fills in, are left out.
pub mod Record
use updater.Common.{
  ℕ, zero, suc, ◌+◌, ◌-◌, ◌*◌, ◌≤◌, ◌<◌, ◌≡◌, refl, sym, ap, ◌∙◌, subst, ◌≢◌, ◌↔◌, ◌⊎◌, inl, inr,
  Bool, true, false, not, ◌&&◌, ◌||◌, Option, none, some, List, [], ◌∷◌, ◌++◌, map, arith, ltb, leb,
  num_eq, if◌then◌else◌, ltb→lt, leb→le, num_eq_iff, Bool-cases, Option-cases, length, get_elem?,
  set, take, drop, last?, length-append, In, All, Distinct, Includes, In-append_left,
  In-append_right, In-append_cases, In-middle, All-append, All-In, All-of_In, All-map,
  Distinct-append, Result, ok, err, Text, codes, ◌==◌, eq_iff, eq_refl, is_empty, is_empty_iff,
  is_space, trim_left, trim_right, trim_left, trim_right, trim_space, to_lower, to_upper, fold_case,
  equal_fold, has_prefix, trim_prefix_of, trim_prefix, trim_suffix, contains, cut, before_sep,
  split, join, text_lt, trim_space_idem, has_prefix_iff, Map, lookup, insert, delete, elem,
  lookup-insert, lookup-delete, elem_iff, not-In_of_elem, text_functions, sort_texts, sort_texts-In,
  sort_texts-Distinct,
}

pub data UpdateType : Type 0 where
  digest tag : UpdateType
  other : Text → UpdateType

pub data ResourceType : Type 0 where
  image container project : ResourceType

pub data ResourceStatus : Type 0 where
  checked updated restarted skipped failed up_to_date update_available : ResourceStatus

pub record Options : Type 0 where
  pub force : Bool
  pub dry_run : Bool

pub record ResourceResult : Type 0 where
  pub resource_id : Text
  pub resource_name : Text
  pub resource_type : ResourceType
  pub status : ResourceStatus
  pub update_available : Bool
  pub update_applied : Bool
  pub old_image : Text
  pub new_image : Text
  pub error : Text

pub record RunResult : Type 0 where
  pub success : Bool
  pub checked_count : ℕ
  pub updated_count : ℕ
  pub restarted_count : ℕ
  pub skipped_count : ℕ
  pub failed_count : ℕ
  pub items : List ResourceResult

pub record ImageUpdateRecord : Type 0 where
  pub id : Text
  pub repository : Text
  pub tag : Text
  pub has_update : Bool
  pub update_type : UpdateType
  pub current_version : Text
  pub latest_version : Option Text
  pub current_digest : Option Text
  pub latest_digest : Option Text
  pub last_error : Option Text

unfoldable pub needs_update : ImageUpdateRecord → Bool
needs_update i = i.has_update

abbrev is_digest : UpdateType → Bool
is_digest digest = true
is_digest tag = false
is_digest (other s) = false

abbrev is_tag : UpdateType → Bool
is_tag digest = false
is_tag tag = true
is_tag (other s) = false

unfoldable pub is_digest_update : ImageUpdateRecord → Bool
is_digest_update i = is_digest i.update_type

unfoldable pub is_tag_update : ImageUpdateRecord → Bool
is_tag_update i = is_tag i.update_type

unfoldable pub image_ref : ImageUpdateRecord → Text
image_ref i =
    let repo = trim_space i.repository in
    let tag = trim_space i.tag in
    if is_empty repo || is_empty tag then [] else repo ++ (codes ":" ++ tag)

-- `i.LatestVersion != nil && strings.TrimSpace(*i.LatestVersion) != ""`, as the trimmed version.
unfoldable pub known_version : Option Text → Option Text
known_version none = none
known_version (some version) =
    let trimmed = trim_space version in if is_empty trimmed then none else some trimmed

unfoldable pub new_image_ref : ImageUpdateRecord → Text
new_image_ref i =
    let repo = trim_space i.repository in
    if is_empty repo
    then []
    else if is_tag_update i
    then elim (known_version i.latest_version) [
      | none ↦ image_ref i
      | some version ↦ repo ++ (codes ":" ++ version)
    ]
    else image_ref i

pub record ComposeProject : Type 0 where
  pub id : Text
  pub name : Text

pub record SelfUpdateTarget : Type 0 where
  pub container_id : Text
  pub container_name : Text
  pub instance_type : Text
  pub labels : Map Text
  pub new_image_ref : Text

pub record Notification : Type 0 where
  pub container_id : Text
  pub container_name : Text
  pub image_ref : Text
  pub old_image : Text
  pub new_image : Text

-- The metadata of an event is left out.
pub record Event : Type 0 where
  pub phase : Text
  pub resource_id : Text
  pub resource_name : Text
