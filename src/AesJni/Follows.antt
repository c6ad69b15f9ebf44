-- ===== src/AesJni/Follows.antt =====
-- The functions of aes-wrapper.c under refused memory. An array whose elements are missing is given back
-- wherever a function ends, which is a fault.
use chain_wallet.Common.{ℕ, Bytes, Option, none}
use chain_wallet.Jni.Machine.{Ptr, M, ◌>>=◌}
use chain_wallet.Jni.Calls.{release_byte_array_elements}
use chain_wallet.Jni.Method.{copy_array_release}
use chain_wallet.Jni.Follows.{
  Follows, Ends, Never, IsMissing, Follows-array, Follows-bind, Follows-option, Ends-first,
  Ends-bind, Ends-option,
}
use chain_wallet.Jni.FollowsCalls.{read-Follows}
use chain_wallet.Jni.FollowsMethod.{follows_rules, copy_array_to_c-Follows}
use chain_wallet.AesJni
use chain_wallet.AesJni.{Aes, Chained}

run_chained-Follows :
    (f : Chained) (c i : Bytes) (p : Ptr) → Follows Never (AesJni.run_chained f c i p)
unfolding AesJni.run_chained
run_chained-Follows f c i p =
    Follows-bind _ _ (read-Follows p 16)
      λ v. Follows-option (f c i v) _ _ (search follows_rules) λ o. search follows_rules

module _ (e : Aes) (n : ℕ) (c i : Bytes) (p : Ptr) where
  encrypt_switch-Follows : Follows Never (AesJni.encrypt_switch e n c i p)
  unfolding AesJni.encrypt_switch
  encrypt_switch-Follows = search (run_chained-Follows, follows_rules) depth 60 fits 4000

  decrypt_switch-Follows : Follows Never (AesJni.decrypt_switch e n c i p)
  unfolding AesJni.decrypt_switch
  decrypt_switch-Follows = search (run_chained-Follows, follows_rules) depth 60 fits 4000

last_release-Ends : (r : ℕ) → Ends Never (copy_array_release r none)
unfolding copy_array_release release_byte_array_elements
last_release-Ends r = record { at = λ s. tt }

module _ (r q u : ℕ) where
  release_all-Follows : (a b d : Ptr) → Follows Never (AesJni.release_all r q u a b d)
  unfolding AesJni.release_all
  release_all-Follows a b d = search follows_rules

  give_up-Follows : (a b d : Ptr) → Follows IsMissing (AesJni.give_up r q u a b d)
  unfolding AesJni.give_up
  give_up-Follows a b d = search (release_all-Follows, follows_rules)

  -- Without the elements of the data or of the IV. A missing key is met before.
  module _ {A : Type 0} {P : A → Type 0} (f : Unit {0} → M A) where
    no_data-Ends : (a d : Ptr) → Ends P (AesJni.release_all r q u a none d >>= f)
    unfolding AesJni.release_all
    no_data-Ends a d = Ends-first _ f (search follows_rules)

    no_iv-Ends : (a b : Ptr) → Ends P (AesJni.release_all r q u a b none >>= f)
    unfolding AesJni.release_all
    no_iv-Ends a b = Ends-first _ f (search (last_release-Ends, follows_rules))

run-Follows :
    (x : Bytes → Option Bytes) (w : Bytes → Bytes → Ptr → M (Option Bytes))
    → ((c i : Bytes) (p : Ptr) → Follows Never (w c i p))
    → (r q u : ℕ) → Follows IsMissing (AesJni.run x w r q u)
unfolding AesJni.run AesJni.give_up
run-Follows x w k r q u =
    Follows-array _ _ (copy_array_to_c-Follows r) (λ n. search follows_rules)
      λ a n.
        Follows-array _ _ (copy_array_to_c-Follows q)
          (λ m. Ends-bind _ _ λ z. Ends-bind _ _ λ t.
            Ends-option (x t) _ _ (search (no_data-Ends, follows_rules)) λ c. search follows_rules)
          λ b m.
            Follows-array _ _ (copy_array_to_c-Follows u)
              (λ l. Ends-bind _ _ λ t.
                Ends-option (x t) _ _ (search (no_iv-Ends, follows_rules))
                  λ c. search (no_iv-Ends, follows_rules))
              λ d l. Follows-bind _ _ (read-Follows _ _) λ t.
                Follows-option (x t) _ _ (search (release_all-Follows, follows_rules)) λ c.
                  Follows-bind _ _ (read-Follows _ _) λ i. Follows-bind _ _ (k c i _) λ o.
                    Follows-option o _ _ (search (release_all-Follows, follows_rules))
                      λ v. search (release_all-Follows, follows_rules)

module _ (e : Aes) (r q u n : ℕ) where
  pub encrypt-Follows : Follows IsMissing (AesJni.encrypt e r q u n)
  unfolding AesJni.encrypt
  encrypt-Follows = run-Follows _ _ (encrypt_switch-Follows e n) r q u

  pub decrypt-Follows : Follows IsMissing (AesJni.decrypt e r q u n)
  unfolding AesJni.decrypt
  decrypt-Follows = run-Follows _ _ (decrypt_switch-Follows e n) r q u
