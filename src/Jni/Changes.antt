-- ===== src/Jni/Changes.antt =====
-- The changes that the calls make to a machine, each from a valid one to a valid one.
use chain_wallet.Common.{ℕ, ◌+◌, ◌≡◌, refl, ◌∙◌, Bool, some, List, ◌∷◌, Bytes, length, arith}
use chain_wallet.Jni.Machine.{Kind, Block, Jvm, update, find_block, remove_block, replace_bytes}
use chain_wallet.Jni.Memory.{push_block}
use chain_wallet.Jni.Valid.{
  BlocksBelow, opened_by, open_blocks, size_of, Fits, FitsKind, IsValid, Below-le, Below-update,
  lookup-push, size_of-push, size_of-update, BlocksBelow-remove, BlocksBelow-replace,
  open_blocks-remove, open_blocks-replace, Fits-remove, Fits-replace, Fits-change,
}
use chain_wallet.Jni.Calls.{push_array, push_string}
use chain_wallet.Jni.Keeps.{Good, same_store-Good}

module _ (s : Jvm) (v : IsValid s) where
  -- What is counted or foreseen is no part of it.
  pub bookkeeping-IsValid :
      (ds : List Bool) (n : ℕ) → IsValid (record s { denials = ds; unsafe_calls = n })
  bookkeeping-IsValid ds n = record {
    arrays_below = v.arrays_below;
    strings_below = v.strings_below;
    blocks_below = v.blocks_below;
    regions = v.regions;
    fits = v.fits;
  }

  pub bookkeeping-Good :
      (ds : List Bool) (n : ℕ) → Good s (record s { denials = ds; unsafe_calls = n })
  bookkeeping-Good ds n = same_store-Good s _ (bookkeeping-IsValid ds n) refl refl

  pub push_block-Good :
      (k : Kind) (w : Bytes) (ds : List Bool) (n u : ℕ)
      → FitsKind s.arrays k (length w)
      → n ≡ opened_by k + s.open_regions
      → Good s (record (push_block k w s) { open_regions = n; denials = ds; unsafe_calls = u })
  push_block-Good k w ds n u fit count =
      same_store-Good s _
        (record {
          arrays_below = v.arrays_below;
          strings_below = v.strings_below;
          blocks_below = (omega arith, v.blocks_below);
          regions = omega (arith, v.regions);
          fits = (fit, v.fits);
        })
        refl refl

  pub remove-Good :
      (a : ℕ) (b : Block)
      → find_block a s.blocks ≡ some b
      → opened_by b.kind ≡ 0
      → Good s (record s { blocks = remove_block a s.blocks })
  remove-Good a b found shut =
      same_store-Good s _
        (record {
          arrays_below = v.arrays_below;
          strings_below = v.strings_below;
          blocks_below = BlocksBelow-remove a s.next_address s.blocks v.blocks_below;
          regions = omega (arith, v.regions, open_blocks-remove a s.blocks b found);
          fits = Fits-remove s.arrays a s.blocks v.fits;
        })
        refl refl

  pub replace-Good :
      (a : ℕ) (w : Bytes) (b : Block)
      → find_block a s.blocks ≡ some b
      → length w ≡ length b.bytes
      → Good s (record s { blocks = replace_bytes a w s.blocks })
  replace-Good a w b found same =
      same_store-Good s _
        (record {
          arrays_below = v.arrays_below;
          strings_below = v.strings_below;
          blocks_below = BlocksBelow-replace a s.next_address w s.blocks v.blocks_below;
          regions = omega (arith, v.regions, open_blocks-replace a w s.blocks);
          fits = Fits-replace s.arrays a w s.blocks b found same v.fits;
        })
        refl refl

  -- An array's content is changed, not its length, while blocks may be given up.
  pub update-Good :
      (r : ℕ) (w : Bytes) (bs : List Block) (n u : ℕ)
      → size_of r s.arrays ≡ some (length w)
      → BlocksBelow s.next_address bs
      → n ≡ open_blocks bs
      → Fits s.arrays bs
      → Good s (record s {
        arrays = update r w s.arrays;
        blocks = bs;
        open_regions = n;
        unsafe_calls = u;
      })
  update-Good r w bs n u size below count fit = record {
    valid = record {
      arrays_below = Below-update r s.next_ref w s.arrays v.arrays_below;
      strings_below = v.strings_below;
      blocks_below = below;
      regions = count;
      fits = Fits-change s.arrays _ bs (λ q i h. size_of-update s.arrays r q w size ∙ h) fit;
    };
    arrays = λ q i h. size_of-update s.arrays r q w size ∙ h;
    strings = λ q x h. h;
  }

  pub push_array-Good :
      (w : Bytes) (ds : List Bool) (u : ℕ)
      → Good s (record (push_array w s) { denials = ds; unsafe_calls = u })
  push_array-Good w ds u =
      let below = v.arrays_below in
      record {
        valid = record {
          arrays_below = (omega arith, v.arrays_below);
          strings_below =
              Below-le s.strings s.next_ref (s.next_ref + 1) (omega arith) v.strings_below;
          blocks_below = v.blocks_below;
          regions = v.regions;
          fits =
              Fits-change s.arrays ((s.next_ref, w) ∷ s.arrays) s.blocks
                (λ q i h. size_of-push s.arrays s.next_ref q i w below h) v.fits;
        };
        arrays = λ q i h. size_of-push s.arrays s.next_ref q i w below h;
        strings = λ q x h. h;
      }

  pub push_string-Good :
      (t : Bytes) (ds : List Bool) (u : ℕ)
      → Good s (record (push_string t s) { denials = ds; unsafe_calls = u })
  push_string-Good t ds u = record {
    valid = record {
      arrays_below = Below-le s.arrays s.next_ref (s.next_ref + 1) (omega arith) v.arrays_below;
      strings_below = (omega arith, v.strings_below);
      blocks_below = v.blocks_below;
      regions = v.regions;
      fits = v.fits;
    };
    arrays = λ q i h. h;
    strings = λ q x h. lookup-push s.strings s.next_ref q t x v.strings_below h;
  }
