-- ===== src/Sync/Keys/Isolation.antt =====
-- What a thread reads under a key after other calls.
use cross_shim.Base.{
  ℕ, ◌≡◌, ◌≢◌, refl, Option, none, some, List, [], ◌∷◌, arith, ◌==◌, if◌then◌else◌, inl, inr, Bool,
  Bool-cases, sym, true, false, ◌&&◌,
}
use cross_shim.Container.Dict
use cross_shim.Container.Dict.{lookup, lookup-insert, lookup-erase}
use cross_shim.Sync.{ThreadManager}
use cross_shim.Sync.Keys.{
  erase_key, value_of, values_of, pthread_key_delete, pthread_getspecific, pthread_setspecific,
}

-- The thread that runs.
abbrev pub on_thread : ThreadManager → ℕ → ThreadManager
on_thread s t = record s { current_thread_id = t }

erase_key-lookup :
    (key t : ℕ) (data' : List (ℕ × List (ℕ × ℕ)))
    → value_of key (lookup t (erase_key key data')) ≡ 0
unfolding erase_key lookup value_of
erase_key-lookup key t [] = refl
erase_key-lookup key t ((u, values) ∷ rest) =
    ground (arith, erase_key-lookup key t rest, lookup-erase key key values)

erase_key-other :
    (key k t : ℕ) (data' : List (ℕ × List (ℕ × ℕ)))
    → key ≢ k
    → value_of k (lookup t (erase_key key data')) ≡ value_of k (lookup t data')
unfolding erase_key lookup value_of
erase_key-other key k t [] ne = refl
erase_key-other key k t ((u, values) ∷ rest) ne =
    ground (arith, erase_key-other key k t rest, lookup-erase key k values)

same : (s : ThreadManager) (t u : ℕ) → (t == u) ≡ true → lookup t s.tls_data ≡ lookup u s.tls_data
same s t u e = ground arith

value_of-insert :
    (key k value : ℕ) (mine : Option (List (ℕ × ℕ)))
    → value_of k (some (Dict.insert key value (values_of mine)))
      ≡ (if key == k then value else value_of k mine)
unfolding value_of values_of lookup Dict.insert
value_of-insert key k value none = ground arith
value_of-insert key k value (some values) = ground (arith, lookup-insert key k value values)

-- A value read from the table of a thread that may be the one that set it.
read_set :
    (b : Bool) (key k value : ℕ) (mine theirs : Option (List (ℕ × ℕ)))
    → (b ≡ true → mine ≡ theirs)
    → value_of k (if b then some (Dict.insert key value (values_of mine)) else theirs)
      ≡ (if b && (key == k) then value else value_of k theirs)
read_set false key k value mine theirs e = refl
read_set true key k value mine theirs e = rw (sym (e refl)) (value_of-insert key k value mine)

-- After one thread sets a key, every thread reads under every key what it read before, but for that
-- thread and that key, where the value set is read.
pub getspecific-setspecific :
    (s : ThreadManager) (t u key k value : ℕ)
    → pthread_getspecific (on_thread (pthread_setspecific (on_thread s t) key value).0 u) k
      ≡ (if (t == u) && (key == k) then value else pthread_getspecific (on_thread s u) k)
unfolding pthread_getspecific pthread_setspecific
getspecific-setspecific s t u key k value =
    let mine = values_of (lookup t s.tls_data) in
    let at = lookup-insert t u (Dict.insert key value mine) s.tls_data in
    rw (at) (read_set (t == u) key k value (lookup t s.tls_data) (lookup u s.tls_data) (same s t u))

-- After a key is deleted every thread reads 0 under it, and under the other keys what it read before.
pub getspecific-key_delete :
    (s : ThreadManager) (u key k : ℕ)
    → pthread_getspecific (on_thread (pthread_key_delete s key).0 u) k
      ≡ (if key == k then 0 else pthread_getspecific (on_thread s u) k)
unfolding pthread_getspecific pthread_key_delete
getspecific-key_delete s u key k = elim (Bool-cases (key == k)) [
  | inl e ↦ ground (arith, erase_key-lookup key u s.tls_data)
  | inr e ↦ ground (arith, erase_key-other key k u s.tls_data)
]
