-- ===== src/Sync/Keys.antt =====
-- The thread-specific values of src/thread_manager.cpp.
pub mod Isolation
use cross_shim.Base.{ℕ, ◌+◌, ◌%◌, ◌^◌, Option, none, some, List, [], ◌∷◌, ◌==◌, if◌then◌else◌}
use cross_shim.Container.Dict
use cross_shim.Container.Dict.{lookup}
use cross_shim.Sync.{ThreadManager, Outcome, returns}

-- The last component is the 32-bit word that is written to the guest's key.
unfoldable pub pthread_key_create : ThreadManager → ℕ → ThreadManager × Outcome × ℕ
pthread_key_create s destructor =
    let key = s.next_tls_key in
    (
      record s {
        next_tls_key = (key + 1) % 2 ^ 64;
        tls_destructors =
            if destructor == 0
            then s.tls_destructors
            else Dict.insert key destructor s.tls_destructors;
      },
      returns 0,
      key % 2 ^ 32,
    )

-- Every thread loses its value.
unfoldable pub erase_key : ℕ → List (ℕ × List (ℕ × ℕ)) → List (ℕ × List (ℕ × ℕ))
erase_key key [] = []
erase_key key ((thread, values) ∷ others) = (thread, Dict.erase key values) ∷ erase_key key others

unfoldable pub pthread_key_delete : ThreadManager → ℕ → ThreadManager × Outcome
unfolding erase_key
pthread_key_delete s key = (
  record s {
    tls_destructors = Dict.erase key s.tls_destructors;
    tls_data = erase_key key s.tls_data;
  },
  returns 0,
)

unfoldable pub value_of : ℕ → Option (List (ℕ × ℕ)) → ℕ
value_of key none = 0
value_of key (some values) = elim (lookup key values) [ none ↦ 0 | some value ↦ value ]

unfoldable pub pthread_getspecific : ThreadManager → ℕ → ℕ
unfolding value_of
pthread_getspecific s key = value_of key (lookup s.current_thread_id s.tls_data)

-- What `tls_data_[thread]` is, made empty if it was not there.
unfoldable pub values_of : Option (List (ℕ × ℕ)) → List (ℕ × ℕ)
values_of none = []
values_of (some values) = values

unfoldable pub pthread_setspecific : ThreadManager → ℕ → ℕ → ThreadManager × Outcome
unfolding values_of
pthread_setspecific s key value =
    let values = values_of (lookup s.current_thread_id s.tls_data) in
    (
      record s {
        tls_data = Dict.insert s.current_thread_id (Dict.insert key value values) s.tls_data;
      },
      returns 0,
    )
