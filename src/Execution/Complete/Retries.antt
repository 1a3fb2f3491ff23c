-- ===== src/Execution/Complete/Retries.antt =====
-- verifyMinIOObject: it ends after three attempts at most, with the answer of the last.
use ingest_srv.Shared.{ℕ, zero, suc, String, Bool, true, false, some, ◌≡◌, refl, ℤ, sym, subst}
use ingest_srv.Runtime.{World, Outcome, ok, ◌>>=◌, pure, call, spent}
use ingest_srv.Execution.Services.{Services, Storage, Reply, answer, failure}
use ingest_srv.Execution.Types.{Err}
use ingest_srv.Execution.Complete.{
  verify_once, verify_from, verify_with, verify_minio_object, stat, or_again,
}

module _ (sv : Services) (st : Storage) (bucket path : String) where
  -- The attempts in order, at most `n` of them, from the world and the last error that they start
  -- with: each fails but the last, and the last succeeds, or all of them fail.
  pub data Attempts : ℕ → String → World → Outcome Err (Reply ℤ) × World → Type 0 where
    succeeds :
        (n : ℕ) (last : String) (w : World) (size : ℤ)
        → (verify_once sv st bucket path w).0 ≡ ok (answer size)
        → Attempts (suc n) last w (ok (answer size), (verify_once sv st bucket path w).1)
    fails :
        (n : ℕ) (last e : String) (w : World) (r : Outcome Err (Reply ℤ) × World)
        → (verify_once sv st bucket path w).0 ≡ ok (failure e)
        → Attempts n e (verify_once sv st bucket path w).1 r
        → Attempts (suc n) last w r
    gives_up :
        (n : ℕ) (last : String) (w : World) → n ≡ 0 → Attempts n last w (ok (failure last), w)

  -- An attempt has an answer: the size, or a text of an error.
  data Tried (r : Outcome Err (Reply ℤ) × World) : Type 0 where
    tried : (reply : Reply ℤ) → r.0 ≡ ok reply → Tried r

  stat-Tried : (reply : Reply Bool) (w : World) → Tried (stat sv st bucket path reply w)
  unfolding pure call
  stat-Tried (answer true) w = tried _ refl
  stat-Tried (answer false) w = tried _ refl
  stat-Tried (failure e) w = tried _ refl

  once-Tried : (w : World) → Tried (verify_once sv st bucket path w)
  unfolding verify_once ◌>>=◌ call
  once-Tried w = stat-Tried (st.file_exists bucket path w) (spent w)

  continued :
      (n : ℕ) (last : String) (w : World)
      → ((e : String) (v : World) → Attempts n e v (verify_from sv n e st bucket path v))
      → Tried (verify_once sv st bucket path w)
      → Attempts (suc n) last w (
          (verify_once sv st bucket path >>= or_again sv (λ e. verify_from sv n e st bucket path))
            w)
  unfolding ◌>>=◌ pure
  continued n last w rest (tried (answer size) is) = rw is (succeeds n last w size is)
  continued n last w rest (tried (failure e) is) =
      rw is (fails n last e w _ is (rest e (verify_once sv st bucket path w).1))

  from-Attempts :
      (n : ℕ) (last : String) (w : World)
      → Attempts n last w (verify_from sv n last st bucket path w)
  unfolding verify_from pure
  from-Attempts zero last w = gives_up zero last w refl
  from-Attempts (suc n) last w = continued n last w (from-Attempts n) (once-Tried w)

-- With a storage client verifyMinIOObject always answers, after three attempts at most: it tries again
-- exactly after a failed attempt, returns the size that the first successful one gives, and the last
-- error where all three fail.
pub verify_minio_object-Attempts :
    (sv : Services) (st : Storage) (bucket path : String) (w : World)
    → sv.storage ≡ some st
    → Attempts sv st bucket path 3 "" w (verify_minio_object sv bucket path w)
unfolding verify_minio_object
verify_minio_object-Attempts sv st bucket path w client =
    subst (λ o. Attempts sv st bucket path 3 "" w (verify_with sv o bucket path w)) (sym client)
      (from-Attempts sv st bucket path 3 "" w)
