-- ===== src/Backend/Memory/Listing.antt =====
-- The lists that the memory storage returns, whatever order a `range` takes.
use mathlib.Core.List.{Mem, Nodup}
use mathlib.Core.List.Perm
use mchat.Base.{ℕ, ◌≡◌, refl, ◌↔◌, true, List, map, Bytes}
use mchat.Dict.{keys}
use mchat.Dict.Laws.{mem-keys, keys-Nodup}
use mchat.Runtime.{Runtime}
use mchat.Backend.Defs.{stored}
use mchat.Backend.Memory.{MemoryStore, has_channel, get_channels}
use mchat.Backend.Memory.Steps.{Reach, Reach-IsWellFormed}

module _ (rt : Runtime) (n : ℕ) (m : MemoryStore) where
  -- The keys that a call of `get_channels` lists, in its order.
  abbrev pub listed : List Bytes
  listed = rt.arrange Bytes n (keys m.channels)

  -- The channels of a storage that the calls reach are listed as pointers to keys of the map, each
  -- key that the storage has exactly once.
  pub get_channels_lists :
      Reach rt m
      → (get_channels rt n m ≡ map stored listed)
        × Nodup listed
        × ((k : Bytes) → Mem k listed ↔ (has_channel m k ≡ true))
  unfolding get_channels has_channel
  get_channels_lists r =
      let p = rt.arrange_perm Bytes n (keys m.channels) in
      let unique = (Reach-IsWellFormed r).channels_unique in
      (
        refl,
        Perm.nodup (Perm.symm p) (keys-Nodup m.channels unique),
        λ k. (
          λ h. (mem-keys m.channels k).0 ((Perm.mem_iff p).0 h),
          λ h. (Perm.mem_iff p).1 ((mem-keys m.channels k).1 h),
        ),
      )
