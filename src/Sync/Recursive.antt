-- ===== src/Sync/Recursive.antt =====
-- A write lock that was taken by trywrlock or on waking has the count 0, not 1.
use cross_shim.Base.{ℕ, ◌+◌, ◌≡◌, refl, true, false, some, List, [], ◌∷◌, arith, ltb, ◌==◌, ap, ◌∙◌}
use cross_shim.Container.Dict.{lookup, lookup-insert}
use cross_shim.Sync.{ThreadManager, EmulatedRwLock, returns}
use cross_shim.Sync.Sharing.{unblock-rwlocks, unblock_all-rwlocks}
use cross_shim.Sync.RwLock.{
  put_rwlock, find_rwlock, is_free, release_writer, unlock_rwlock, pthread_rwlock_wrlock,
  pthread_rwlock_trywrlock, pthread_rwlock_unlock,
}

module _ (s : ThreadManager) (p : ℕ) where
  put-lookup : (l : EmulatedRwLock) → lookup p (put_rwlock s p l).rwlocks ≡ some l
  unfolding put_rwlock
  put-lookup l = ground (arith, lookup-insert p p l s.rwlocks)

  pub find_lookup : (l : EmulatedRwLock) → lookup p s.rwlocks ≡ some l → find_rwlock s p ≡ l
  unfolding find_rwlock
  find_lookup l e = rw (e, find_rwlock) refl

  take_free :
      (l : EmulatedRwLock)
      → lookup p s.rwlocks ≡ some l
      → is_free l ≡ true
      → pthread_rwlock_trywrlock s p
        ≡ (put_rwlock s p (record l { writer = s.current_thread_id }), returns 0)
  unfolding pthread_rwlock_trywrlock
  take_free l e free = rw (find_lookup l e, free) refl

  take_again :
      (l : EmulatedRwLock)
      → lookup p s.rwlocks ≡ some l
      → l.writer ≡ s.current_thread_id
      → pthread_rwlock_wrlock s p
        ≡ (put_rwlock s p (record l { write_count = l.write_count + 1 }), returns 0)
  unfolding pthread_rwlock_wrlock
  take_again l e mine =
      let own : (l.writer == s.current_thread_id) ≡ true = ground (arith, mine) in
      rw (find_lookup l e, own) refl

  release_writer-writer :
      (l : EmulatedRwLock) (q : List ℕ)
      → l.writer ≡ 0
      → (k : EmulatedRwLock) × (lookup p (release_writer s p l q).rwlocks ≡ some k) × (k.writer ≡ 0)
  unfolding release_writer put_rwlock
  release_writer-writer l [] z =
      let k = record l { read_wait_queue = [] } in
      (
        k,
        ap (lookup p) (unblock_all-rwlocks _ l.read_wait_queue)
            ∙ ground (arith, lookup-insert p p k s.rwlocks),
        z,
      )
  release_writer-writer l (t ∷ q) z =
      let k = record l { write_wait_queue = q } in
      (k, ap (lookup p) (unblock-rwlocks _ t) ∙ ground (arith, lookup-insert p p k s.rwlocks), z)

  release_last :
      (l : EmulatedRwLock)
      → lookup p s.rwlocks ≡ some l
      → l.writer ≡ s.current_thread_id
      → l.write_count ≡ 1
      → (k : EmulatedRwLock) × (lookup p (pthread_rwlock_unlock s p).0.rwlocks ≡ some k)
        × (k.writer ≡ 0)
  unfolding pthread_rwlock_unlock unlock_rwlock
  release_last l e mine once =
      let own : (l.writer == s.current_thread_id) ≡ true = ground (arith, mine) in
      let last : ltb 1 l.write_count ≡ false = ground arith in
      rw (pthread_rwlock_unlock, e, own, last)
        (release_writer-writer (record l { writer = 0; write_count = 0 }) l.write_wait_queue refl)

-- A thread that takes a free lock with the count 0 by trywrlock and once more by wrlock, both with
-- the result 0, loses it by one unlock: the lock has no writer although it was taken twice.
pub unlock_twice_taken :
    (s : ThreadManager) (p : ℕ) (l : EmulatedRwLock)
    → lookup p s.rwlocks ≡ some l
    → is_free l ≡ true
    → l.write_count ≡ 0
    → let first = pthread_rwlock_trywrlock s p in
      let second = pthread_rwlock_wrlock first.0 p in
      (first.1 ≡ returns 0)
      × (second.1 ≡ returns 0)
      × ((find_rwlock (pthread_rwlock_unlock second.0 p).0 p).writer ≡ 0)
unfolding put_rwlock
unlock_twice_taken s p l e free z =
    let t = s.current_thread_id in
    let l1 = record l { writer = t } in
    let l2 = record l1 { write_count = l.write_count + 1 } in
    let s1 = put_rwlock s p l1 in
    let s2 = put_rwlock s1 p l2 in
    let (k, at, none') = release_last s2 p l2 (put-lookup s1 p l2) refl (omega arith) in
    rw (take_free s p l e free, take_again s1 p l1 (put-lookup s p l1) refl)
      (
        refl,
        refl,
        ap (λ (x : EmulatedRwLock). x.writer) (find_lookup (pthread_rwlock_unlock s2 p).0 p k at)
            ∙ none',
      )
