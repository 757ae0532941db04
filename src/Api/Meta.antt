-- ===== src/Api/Meta.antt =====
-- The parts of the Kubernetes object metadata that the program uses. A time is in nanoseconds.
use cf_edge_operator.Prelude.{ℕ, String, Option, List}

-- A `metav1.Condition`. Its transition time is set by the library and never read.
pub record Condition : Type 0 where
  pub type : String
  pub status : String
  pub reason : String
  pub message : String
  pub observed_generation : ℕ

pub record ObjectMeta : Type 0 where
  pub name : String
  pub namespace : String
  pub uid : String
  pub generation : ℕ
  pub finalizers : List String
  pub deletion_timestamp : Option ℕ

pub record NamespacedName : Type 0 where
  pub name : String
  pub namespace : String

-- The data of a `corev1.Secret`.
pub record Secret : Type 0 where
  pub entries : List (String × String)
