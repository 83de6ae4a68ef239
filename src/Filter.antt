-- ===== src/Filter.antt =====
-- ethabi/src/filter.rs: filters on the topics of a log.
use ethabi.Base.{
  ℕ, zero, suc, arith, ◌≡◌, refl, ◌==◌, Bool, true, false, Option, some, none, List, [], ◌∷◌, map,
  get_elem?, if◌then◌else◌, Result, ok, panic, Bytes,
}
use ethabi.Token.{Token}

pub data Topic {ℓ} (A : Type ℓ) : Type ℓ where
  any : Topic A
  one_of : List A → Topic A
  this : A → Topic A

module _ {ℓ} {A : Type ℓ} where
  unfoldable pub map_topic {κ} : {O : Type κ} → (A → O) → Topic A → Topic O
  map_topic f any = any
  map_topic f (one_of topics) = one_of (map f topics)
  map_topic f (this topic) = this (f topic)

  unfoldable pub is_any : Topic A → Bool
  is_any any = true
  is_any _ = false

  -- `From<Option<T>>`, `From<T>` and `From<Vec<T>>`.
  unfoldable pub from_option : Option A → Topic A
  from_option (some topic) = this topic
  from_option none = any

  unfoldable pub from_value : A → Topic A
  from_value topic = this topic

  unfoldable pub from_vec : List A → Topic A
  from_vec topics = one_of topics

  -- `From<Topic<T>> for Vec<T>`.
  unfoldable pub into_vec : Topic A → List A
  into_vec any = []
  into_vec (this topic) = topic ∷ []
  into_vec (one_of topics) = topics

  -- `Index`: a topic that is not there panics.
  unfoldable pub index : Topic A → ℕ → Result A
  index any i = panic
  index (this topic) i = if i == 0 then ok topic else panic
  index (one_of topics) i = elim (get_elem? topics i) [ some topic ↦ ok topic | none ↦ panic ]

pub record RawTopicFilter : Type 0 where
  pub topic0 : Topic Token
  pub topic1 : Topic Token
  pub topic2 : Topic Token

-- A `Hash` is its 32 bytes.
pub record TopicFilter : Type 0 where
  pub topic0 : Topic Bytes
  pub topic1 : Topic Bytes
  pub topic2 : Topic Bytes
  pub topic3 : Topic Bytes

module _ {ℓ} {A : Type ℓ} where
  -- Indexing a topic, at any position, is indexing the vector it converts into, and panics where
  -- that has no item; `map` applies the function to each item of that vector, and keeps `is_any`.
  pub index-into_vec {κ} :
      {O : Type κ} (f : A → O) (t : Topic A) (i : ℕ)
      → (index t i ≡ elim (get_elem? (into_vec t) i) [ some topic ↦ ok topic | none ↦ panic ])
        × (into_vec (map_topic f t) ≡ map f (into_vec t))
        × (is_any (map_topic f t) ≡ is_any t)
  unfolding index into_vec map_topic is_any
  index-into_vec f any i = (refl, refl, refl)
  index-into_vec f (this a) zero = (refl, refl, refl)
  index-into_vec f (this a) (suc i) = (ground arith, refl, refl)
  index-into_vec f (one_of ts) i = (refl, refl, refl)
