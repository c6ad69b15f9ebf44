-- ===== src/AesJni/Moves.antt =====
-- The functions of aes-wrapper.c leave the open critical regions alone, and make no JNI call
-- inside one.
use chain_wallet.Common.{ℕ, Bool, Bytes, Option}
use chain_wallet.Jni.Machine.{Ptr, M}
use chain_wallet.Jni.Moves.{Allowed, Moves, still, Moves-bind, Moves-option}
use chain_wallet.Jni.MovesCalls.{moves_rules, copy_array_to_c-Moves, read-Moves}
use chain_wallet.AesJni
use chain_wallet.AesJni.{Aes, Chained}

module _ {calm : Bool} {i : ℕ} (ok : Allowed calm i) where
  run_chained-Moves :
      (f : Chained) (c v : Bytes) (p : Ptr) → Moves calm i (still i) (AesJni.run_chained f c v p)
  unfolding AesJni.run_chained
  run_chained-Moves f c v p =
      Moves-bind _ _ (read-Moves p 16)
        λ w. Moves-option (f c v w) _ _ (search moves_rules) λ o. search moves_rules

  module _ (e : Aes) (n : ℕ) (c v : Bytes) (p : Ptr) where
    encrypt_switch-Moves : Moves calm i (still i) (AesJni.encrypt_switch e n c v p)
    unfolding AesJni.encrypt_switch
    encrypt_switch-Moves = search (run_chained-Moves, moves_rules) depth 60 fits 4000

    decrypt_switch-Moves : Moves calm i (still i) (AesJni.decrypt_switch e n c v p)
    unfolding AesJni.decrypt_switch
    decrypt_switch-Moves = search (run_chained-Moves, moves_rules) depth 60 fits 4000

  module _ (r q u : ℕ) (a b d : Ptr) where
    release_all-Moves : Moves calm i (still i) (AesJni.release_all r q u a b d)
    unfolding AesJni.release_all
    release_all-Moves = search moves_rules

    give_up-Moves : Moves calm i (still i) (AesJni.give_up r q u a b d)
    unfolding AesJni.give_up
    give_up-Moves = search (release_all-Moves, moves_rules)

  run-Moves :
      (x : Bytes → Option Bytes) (w : Bytes → Bytes → Ptr → M (Option Bytes))
      → ((c v : Bytes) (p : Ptr) → Moves calm i (still i) (w c v p))
      → (r q u : ℕ) → Moves calm i (still i) (AesJni.run x w r q u)
  unfolding AesJni.run
  run-Moves x w k r q u = Moves-bind _ _ (copy_array_to_c-Moves r ok) λ a.
      Moves-bind _ _ (copy_array_to_c-Moves q ok) λ b.
        Moves-bind _ _ (copy_array_to_c-Moves u ok) λ d. Moves-bind _ _ (read-Moves _ _) λ t.
          Moves-option (x t) _ _ (give_up-Moves r q u _ _ _) λ c.
            Moves-bind _ _ (read-Moves _ _) λ v. Moves-bind _ _ (k c v _) λ o.
              Moves-option o _ _ (give_up-Moves r q u _ _ _)
                λ y. search (release_all-Moves, moves_rules)

  module _ (e : Aes) (r q u n : ℕ) where
    pub encrypt-Moves : Moves calm i (still i) (AesJni.encrypt e r q u n)
    unfolding AesJni.encrypt
    encrypt-Moves = run-Moves _ _ (encrypt_switch-Moves e n) r q u

    pub decrypt-Moves : Moves calm i (still i) (AesJni.decrypt e r q u n)
    unfolding AesJni.decrypt
    decrypt-Moves = run-Moves _ _ (decrypt_switch-Moves e n) r q u
