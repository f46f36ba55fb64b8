-- ===== src/Sync/Sharing.antt =====
-- Every call on a read-write lock keeps readers and writers apart.
use cross_shim.Base.{
  ℕ, ◌+◌, ◌-◌, ◌≡◌, refl, some, List, [], ◌∷◌, ◌⊎◌, inl, inr, arith, ltb, ◌==◌, Bool-cases,
  Option-cases, ap, ◌∙◌,
}
use cross_shim.Container.Dict
use cross_shim.Container.Dict.{lookup, lookup-insert, lookup-erase}
use cross_shim.Sync.{
  unblock_all, finish, ThreadManager, ThreadContext, EmulatedRwLock, enqueue, update_current,
  block_current_thread, unblock_thread_internal,
}
use cross_shim.Sync.RwLock.{
  put_rwlock, find_rwlock, add_reader, is_free, wait_to_read, wait_to_write, retry_read,
  retry_write, release_writer, release_readers, unlock_rwlock, pthread_rwlock_destroy,
  pthread_rwlock_rdlock, pthread_rwlock_rdlock_resume, pthread_rwlock_tryrdlock,
  pthread_rwlock_wrlock, pthread_rwlock_wrlock_resume, pthread_rwlock_trywrlock,
  pthread_rwlock_unlock,
}

-- A lock that has a writer has no reader.
abbrev pub RwValid : EmulatedRwLock → Type 0
RwValid l = (l.readers ≡ 0) ⊎ (l.writer ≡ 0)

abbrev pub RwLocksValid : ThreadManager → Type 0
RwLocksValid s = (p : ℕ) (l : EmulatedRwLock) → lookup p s.rwlocks ≡ some l → RwValid l

update_current-rwlocks :
    (s : ThreadManager) (f : ThreadContext → ThreadContext)
    → (update_current s f).rwlocks ≡ s.rwlocks
unfolding update_current
update_current-rwlocks s f = ground arith

pub unblock-rwlocks :
    (s : ThreadManager) (t : ℕ) → (unblock_thread_internal s t).rwlocks ≡ s.rwlocks
unfolding unblock_thread_internal
unblock-rwlocks s t = ground arith

pub unblock_all-rwlocks : (s : ThreadManager) (q : List ℕ) → (unblock_all s q).rwlocks ≡ s.rwlocks
unfolding unblock_all
unblock_all-rwlocks s [] = refl
unblock_all-rwlocks s (t ∷ q) =
    unblock_all-rwlocks (unblock_thread_internal s t) q ∙ unblock-rwlocks s t

-- The table after a lock that is valid was stored.
stored-RwLocksValid :
    (p : ℕ) (l : EmulatedRwLock) (s g : ThreadManager)
    → RwLocksValid s
    → RwValid l
    → g.rwlocks ≡ Dict.insert p l s.rwlocks
    → RwLocksValid g
stored-RwLocksValid p l s g v w e r x f =
    let at = ap (lookup r) e ∙ lookup-insert p r l s.rwlocks in ground (arith, at, v r x, w)

pub destroy-RwLocksValid :
    (p : ℕ) (s : ThreadManager) → RwLocksValid s → RwLocksValid (pthread_rwlock_destroy s p).0
unfolding pthread_rwlock_destroy
destroy-RwLocksValid p s v r x f = ground (arith, lookup-erase p r s.rwlocks, v r x)

module _ (s : ThreadManager) (v : RwLocksValid s) where
  find_rwlock-RwValid : (p : ℕ) → RwValid (find_rwlock s p)
  unfolding find_rwlock
  find_rwlock-RwValid p = elim (Option-cases (lookup p s.rwlocks)) [
    | inl e ↦ rw (e, find_rwlock) (inl refl)
    | inr (l, e) ↦ rw (e, find_rwlock) (v p l e)
  ]

  pub put-RwLocksValid : (p : ℕ) (l : EmulatedRwLock) → RwValid l → RwLocksValid (put_rwlock s p l)
  unfolding put_rwlock
  put-RwLocksValid p l w = stored-RwLocksValid p l s (put_rwlock s p l) v w refl

  read_wait-RwLocksValid :
      (p r : ℕ) (l : EmulatedRwLock) → RwValid l → RwLocksValid (wait_to_read s p r l)
  unfolding wait_to_read block_current_thread put_rwlock
  read_wait-RwLocksValid p r l w =
      stored-RwLocksValid p
        (record l { read_wait_queue = enqueue s.current_thread_id l.read_wait_queue }) s
        (wait_to_read s p r l) v w (update_current-rwlocks _ _ ∙ update_current-rwlocks _ _)

  write_wait-RwLocksValid :
      (p r : ℕ) (l : EmulatedRwLock) → RwValid l → RwLocksValid (wait_to_write s p r l)
  unfolding wait_to_write block_current_thread put_rwlock
  write_wait-RwLocksValid p r l w =
      stored-RwLocksValid p
        (record l { write_wait_queue = enqueue s.current_thread_id l.write_wait_queue }) s
        (wait_to_write s p r l) v w (update_current-rwlocks _ _ ∙ update_current-rwlocks _ _)

  pub rdlock-RwLocksValid : (p : ℕ) → RwLocksValid (pthread_rwlock_rdlock s p).0
  unfolding pthread_rwlock_rdlock add_reader
  rdlock-RwLocksValid p =
      let l = find_rwlock s p in
      elim (Bool-cases (l.writer == 0)) [
        | inl free ↦ rw free (put-RwLocksValid p (add_reader l) (inr (ground arith)))
        | inr held ↦ rw held (read_wait-RwLocksValid p s.lr l (find_rwlock-RwValid p))
      ]

  pub tryrdlock-RwLocksValid : (p : ℕ) → RwLocksValid (pthread_rwlock_tryrdlock s p).0
  unfolding pthread_rwlock_tryrdlock add_reader
  tryrdlock-RwLocksValid p =
      let l = find_rwlock s p in
      elim (Bool-cases (l.writer == 0)) [
        | inl free ↦ rw free (put-RwLocksValid p (add_reader l) (inr (ground arith)))
        | inr held ↦ rw held (put-RwLocksValid p l (find_rwlock-RwValid p))
      ]

  retry_read-RwLocksValid : (p r : ℕ) → RwLocksValid (retry_read s p r).0
  unfolding retry_read finish add_reader
  retry_read-RwLocksValid p r = elim (Option-cases (lookup p s.rwlocks)) [
    | inl e ↦ rw (retry_read, e) v
    | inr (l, e) ↦ elim (Bool-cases (l.writer == 0)) [
      | inl free ↦ rw (retry_read, e, free) (put-RwLocksValid p (add_reader l) (inr (ground arith)))
      | inr held ↦ rw (retry_read, e, held) (read_wait-RwLocksValid p r l (v p l e))
    ]
  ]

  retry_write-RwLocksValid : (p r : ℕ) → RwLocksValid (retry_write s p r).0
  unfolding retry_write finish
  retry_write-RwLocksValid p r = elim (Option-cases (lookup p s.rwlocks)) [
    | inl e ↦ rw (retry_write, e) v
    | inr (l, e) ↦ elim (Bool-cases (is_free l)) [
      | inl free ↦
          rw (retry_write, e, free)
            (put-RwLocksValid p (record l { writer = s.current_thread_id }) (inl (ground arith)))
      | inr held ↦ rw (retry_write, e, held) (write_wait-RwLocksValid p r l (v p l e))
    ]
  ]

  pub wrlock-RwLocksValid : (p : ℕ) → RwLocksValid (pthread_rwlock_wrlock s p).0
  unfolding pthread_rwlock_wrlock
  wrlock-RwLocksValid p =
      let l = find_rwlock s p in
      let valid = find_rwlock-RwValid p in
      elim (Bool-cases (l.writer == s.current_thread_id)) [
        | inl mine ↦
            rw mine (put-RwLocksValid p (record l { write_count = l.write_count + 1 }) valid)
        | inr other ↦ elim (Bool-cases (is_free l)) [
          | inl free ↦
              rw (other, free)
                (put-RwLocksValid p (record l { writer = s.current_thread_id; write_count = 1 })
                  (inl (ground arith)))
          | inr held ↦ rw (other, held) (write_wait-RwLocksValid p s.lr l valid)
        ]
      ]

  pub trywrlock-RwLocksValid : (p : ℕ) → RwLocksValid (pthread_rwlock_trywrlock s p).0
  unfolding pthread_rwlock_trywrlock
  trywrlock-RwLocksValid p =
      let l = find_rwlock s p in
      elim (Bool-cases (is_free l)) [
        | inl free ↦
            rw free
              (put-RwLocksValid p (record l { writer = s.current_thread_id }) (inl (ground arith)))
        | inr held ↦ rw held (put-RwLocksValid p l (find_rwlock-RwValid p))
      ]

  release_writer-RwLocksValid :
      (p : ℕ) (l : EmulatedRwLock) (q : List ℕ) → RwValid l → RwLocksValid (release_writer s p l q)
  unfolding release_writer put_rwlock
  release_writer-RwLocksValid p l [] w =
      stored-RwLocksValid p (record l { read_wait_queue = [] }) s (release_writer s p l []) v w
        (unblock_all-rwlocks _ l.read_wait_queue)
  release_writer-RwLocksValid p l (t ∷ q) w =
      stored-RwLocksValid p (record l { write_wait_queue = q }) s (release_writer s p l (t ∷ q)) v w
        (unblock-rwlocks _ t)

  release_readers-RwLocksValid :
      (p : ℕ) (l : EmulatedRwLock) (q : List ℕ) → RwValid l → RwLocksValid (release_readers s p l q)
  unfolding release_readers put_rwlock
  release_readers-RwLocksValid p l [] w = put-RwLocksValid p l w
  release_readers-RwLocksValid p l (t ∷ q) w =
      stored-RwLocksValid p (record l { write_wait_queue = q }) s (release_readers s p l (t ∷ q)) v
        w (unblock-rwlocks _ t)

  unlock_found-RwLocksValid :
      (p : ℕ) (l : EmulatedRwLock) → RwValid l → RwLocksValid (unlock_rwlock s p l)
  unfolding unlock_rwlock
  unlock_found-RwLocksValid p l w =
      let fewer = record l { readers = l.readers - 1 } in
      let fewer-RwValid : RwValid fewer = ground (arith, w) in
      elim (Bool-cases (l.writer == s.current_thread_id)) [
        | inl mine ↦ elim (Bool-cases (ltb 1 l.write_count)) [
          | inl again ↦
              rw (mine, again) (put-RwLocksValid p (record l { write_count = l.write_count - 1 }) w)
          | inr last ↦
              rw (mine, last)
                (release_writer-RwLocksValid p (record l { writer = 0; write_count = 0 })
                  l.write_wait_queue (inr refl))
        ]
        | inr other ↦ elim (Bool-cases (l.readers == 0)) [
          | inl nobody ↦ rw (other, nobody) v
          | inr some' ↦ elim (Bool-cases (l.readers == 1)) [
            | inl last ↦
                rw (other, some', last)
                  (release_readers-RwLocksValid p fewer l.write_wait_queue fewer-RwValid)
            | inr more ↦ rw (other, some', more) (put-RwLocksValid p fewer fewer-RwValid)
          ]
        ]
      ]

  pub unlock-RwLocksValid : (p : ℕ) → RwLocksValid (pthread_rwlock_unlock s p).0
  unfolding pthread_rwlock_unlock
  unlock-RwLocksValid p = elim (Option-cases (lookup p s.rwlocks)) [
    | inl e ↦ rw (pthread_rwlock_unlock, e) v
    | inr (l, e) ↦ rw (pthread_rwlock_unlock, e) (unlock_found-RwLocksValid p l (v p l e))
  ]

module _ (s : ThreadManager) (v : RwLocksValid s) where
  pub read_resume-RwLocksValid : RwLocksValid (pthread_rwlock_rdlock_resume s).0
  unfolding pthread_rwlock_rdlock_resume
  read_resume-RwLocksValid = elim (Option-cases (lookup s.current_thread_id s.threads)) [
    | inl e ↦ rw (pthread_rwlock_rdlock_resume, e) v
    | inr (t, e) ↦
        let cleared = record t { rwlock_rdlock_ptr = 0; rwlock_rdlock_return_addr = 0 } in
        rw (pthread_rwlock_rdlock_resume, e)
          (retry_read-RwLocksValid
            (record s { threads = Dict.insert s.current_thread_id cleared s.threads }) v
            t.rwlock_rdlock_ptr t.rwlock_rdlock_return_addr)
  ]

  pub write_resume-RwLocksValid : RwLocksValid (pthread_rwlock_wrlock_resume s).0
  unfolding pthread_rwlock_wrlock_resume
  write_resume-RwLocksValid = elim (Option-cases (lookup s.current_thread_id s.threads)) [
    | inl e ↦ rw (pthread_rwlock_wrlock_resume, e) v
    | inr (t, e) ↦
        let cleared = record t { rwlock_wrlock_ptr = 0; rwlock_wrlock_return_addr = 0 } in
        rw (pthread_rwlock_wrlock_resume, e)
          (retry_write-RwLocksValid
            (record s { threads = Dict.insert s.current_thread_id cleared s.threads }) v
            t.rwlock_wrlock_ptr t.rwlock_wrlock_return_addr)
  ]
