-- ===== src/Mls/GroupId/Laws.antt =====
-- svalin_pki/src/mls/group_id.rs: reading the name of a group.
use svalin.Prelude.{ℕ, ◌≡◌, ◌≢◌, refl, Option, none, some, List, [], ◌∷◌, ◌++◌, arith}
use svalin.Prelude.Lists.{All}
use svalin.Prelude.Result.{ok}
use svalin.Bytes.{Bytes, to_be_bytes, Fits, from-to_be_bytes, length-to_be_bytes}
use svalin.Platform.{SpkiHash}
use svalin.Mls.GroupId.{
  Hex, SvalinGroupId, global_group, device_group, device_meta_group, from_slice, split, from_hex,
  to_group_id, from_group_id, parse_hash,
}

-- The crate hex reads what it writes, and writes digits only.
pub record IsHex (hex : Hex) : Type 0 where
  pub decode-encode : (n v : ℕ) → hex.decode (hex.encode (to_be_bytes n v)) ≡ some (to_be_bytes n v)
  pub no_slash : (n v : ℕ) → All (λ b. b ≢ b'/') (hex.encode (to_be_bytes n v))

-- The hash of a group has 32 bytes.
abbrev pub IsGroup : SvalinGroupId → Type 0
IsGroup global_group = Unit
IsGroup (device_group h) = Fits 32 h
IsGroup (device_meta_group h) = Fits 32 h

-- What follows a name: nothing, or a slash and more.
abbrev pub suffix : Option Bytes → Bytes
suffix none = []
suffix (some rest) = b'/' ∷ rest

abbrev suffix_parts : Option Bytes → List Bytes
suffix_parts none = []
suffix_parts (some rest) = split rest

split-suffix :
    (text : Bytes) (rest : Option Bytes)
    → All (λ b. b ≢ b'/') text
    → split (text ++ suffix rest) ≡ text ∷ suffix_parts rest
unfolding split
split-suffix [] none h = refl
split-suffix [] (some rest) h = refl
split-suffix (b ∷ bs) rest h = ground (arith, split-suffix bs rest h.1, h.0)

module _ (hex : Hex) (laws : IsHex hex) where
  from-to_hex : (h : SpkiHash) → Fits 32 h → from_hex hex (hex.encode (to_be_bytes 32 h)) ≡ some h
  unfolding from_hex from_slice
  from-to_hex h fits =
      rw (laws.decode-encode 32 h, from_hex)
        (rw (length-to_be_bytes 32 h, from_slice) (rw (from-to_be_bytes 32 h fits) refl))

  -- If the crate hex reads back what it writes and writes no slash, the name of a group is read as that
  -- group, also when a slash and anything follow it.
  pub from-to_group_id :
      (id : SvalinGroupId) (rest : Option Bytes)
      → IsGroup id
      → from_group_id hex (to_group_id hex id ++ suffix rest) ≡ ok id
  unfolding from_group_id to_group_id
  from-to_group_id global_group none fits = refl
  from-to_group_id global_group (some rest) fits = refl
  from-to_group_id (device_group h) rest fits =
      rw (split-suffix (hex.encode (to_be_bytes 32 h)) rest (laws.no_slash 32 h))
        (rw (from-to_hex h fits, parse_hash) refl)
  from-to_group_id (device_meta_group h) rest fits =
      rw (split-suffix (hex.encode (to_be_bytes 32 h)) rest (laws.no_slash 32 h))
        (rw (from-to_hex h fits, parse_hash) refl)
