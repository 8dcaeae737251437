-- ===== src/Kube/Meta.antt =====
-- The fields of `metav1` types that the program reads or writes. A `metav1.Time` is the integer of
-- its nanoseconds since the epoch.
use notebook_operator.Base.{Option, List, Bool}
use notebook_operator.Base.Int.{ℤ, negsuc}
use notebook_operator.Base.Text.{Text}
use notebook_operator.Base.Dict.{Dict}

abbrev pub Time : Type 0
Time = ℤ

-- `metav1.Time{}`, the first instant of the year 1: what `IsZero` tests for.
abbrev pub zero_time : Time
zero_time = negsuc 62135596799999999999

-- An owner by its UID, and whether it is the controller.
pub record OwnerReference : Type 0 where
  pub uid : Text
  pub controller : Bool

pub record ObjectMeta : Type 0 where
  pub name : Text
  pub namespace : Text
  pub uid : Text
  pub labels : Dict Text
  pub annotations : Dict Text
  pub finalizers : List Text
  pub owner_references : List OwnerReference
  pub creation_timestamp : Time
  pub deletion_timestamp : Option Time

-- `types.NamespacedName`
pub record NamespacedName : Type 0 where
  pub namespace : Text
  pub name : Text

pub record Condition : Type 0 where
  pub type : Text
  pub status : Text
  pub reason : Text
  pub message : Text
  pub last_transition_time : Time

pub record LabelSelector : Type 0 where
  pub match_labels : Dict Text
