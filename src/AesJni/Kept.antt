-- ===== src/AesJni/Kept.antt =====
-- The functions of aes-wrapper.c and the validity of the machine.
use chain_wallet.Common.{ℕ, Bytes, Option, Option-cases, inl, inr}
use chain_wallet.Jni.Machine.{Ptr, M}
use chain_wallet.Jni.Keeps.{Keeps, Keeps-bind, Keeps-ptr}
use chain_wallet.Jni.KeptMethod.{keeps_rules}
use chain_wallet.AesJni
use chain_wallet.AesJni.{Aes, Chained}

pub run_chained-Keeps : (f : Chained) (c i : Bytes) (p : Ptr) → Keeps (AesJni.run_chained f c i p)
unfolding AesJni.run_chained
run_chained-Keeps f c i p = Keeps-bind _ _ (search keeps_rules depth 60 fits 4000) λ x0.
    elim (Option-cases (f c i x0)) [
      | inl e ↦ rw e (search keeps_rules depth 60 fits 4000)
      | inr ((o, w), e) ↦ rw e (search keeps_rules depth 60 fits 4000)
    ]

pub encrypt_switch-Keeps :
    (e : Aes) (n : ℕ) (c i : Bytes) (p : Ptr) → Keeps (AesJni.encrypt_switch e n c i p)
unfolding AesJni.encrypt_switch
encrypt_switch-Keeps e n c i p = search (keeps_rules, run_chained-Keeps) depth 60 fits 4000

pub decrypt_switch-Keeps :
    (e : Aes) (n : ℕ) (c i : Bytes) (p : Ptr) → Keeps (AesJni.decrypt_switch e n c i p)
unfolding AesJni.decrypt_switch
decrypt_switch-Keeps e n c i p = search (keeps_rules, run_chained-Keeps) depth 60 fits 4000

pub release_all-Keeps : (r q u : ℕ) (a b d : Ptr) → Keeps (AesJni.release_all r q u a b d)
unfolding AesJni.release_all
release_all-Keeps r q u a b d = search keeps_rules depth 60 fits 4000

pub give_up-Keeps : (r q u : ℕ) (a b d : Ptr) → Keeps (AesJni.give_up r q u a b d)
unfolding AesJni.give_up
give_up-Keeps r q u a b d = search (keeps_rules, release_all-Keeps) depth 60 fits 4000

pub run-Keeps :
    (x : Bytes → Option Bytes) (w : Bytes → Bytes → Ptr → M (Option Bytes))
    → ((c i : Bytes) (p : Ptr) → Keeps (w c i p))
    → (r q u : ℕ) → Keeps (AesJni.run x w r q u)
unfolding AesJni.run
run-Keeps x w k r q u = Keeps-bind _ _ (search keeps_rules depth 60 fits 4000) λ x0.
    Keeps-bind _ _ (search keeps_rules depth 60 fits 4000) λ x1.
      Keeps-bind _ _ (search keeps_rules depth 60 fits 4000) λ x2.
        Keeps-bind _ _ (search keeps_rules depth 60 fits 4000) λ x3. elim (Option-cases (x x3)) [
          | inl e ↦ rw e (search (keeps_rules, give_up-Keeps, release_all-Keeps) depth 60 fits 4000)
          | inr (c, e) ↦ rw e (
              Keeps-bind _ _ (search keeps_rules depth 60 fits 4000) λ d.
                Keeps-ptr _ _ (k c d _)
                  (search (keeps_rules, give_up-Keeps, release_all-Keeps) depth 60 fits 4000)
                  (λ a. search (keeps_rules, give_up-Keeps, release_all-Keeps) depth 60 fits 4000))
        ]

pub encrypt-Keeps : (e : Aes) (r q u n : ℕ) → Keeps (AesJni.encrypt e r q u n)
unfolding AesJni.encrypt
encrypt-Keeps e r q u n = run-Keeps _ _ (encrypt_switch-Keeps e n) r q u

pub decrypt-Keeps : (e : Aes) (r q u n : ℕ) → Keeps (AesJni.decrypt e r q u n)
unfolding AesJni.decrypt
decrypt-Keeps e r q u n = run-Keeps _ _ (decrypt_switch-Keeps e n) r q u
