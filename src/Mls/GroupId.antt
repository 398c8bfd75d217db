-- ===== src/Mls/GroupId.antt =====
-- svalin_pki/src/mls/group_id.rs: the groups of the program and their names in OpenMLS.
pub mod Laws
use svalin.Prelude.{ℕ, Bool, true, false, Option, none, some, List, [], ◌∷◌, ◌++◌}
use svalin.Prelude.Tests.{◌==◌, if◌then◌else◌}
use svalin.Prelude.Lists.{length, bytes_eq}
use svalin.Prelude.Result.{Result, ok, err, ◌>>=◌}
use svalin.Bytes.{Bytes, codes, to_be_bytes, from_be_bytes}
use svalin.Platform.{SpkiHash}

-- The crate hex: `encode_hex` and `decode`.
pub record Hex : Type 0 where
  pub encode : Bytes → Bytes
  pub decode : Bytes → Option Bytes

pub data SvalinGroupId : Type 0 where
  global_group : SvalinGroupId
  device_group device_meta_group : SpkiHash → SvalinGroupId

pub data ParseGroupIdError : Type 0 where
  wrong_slice_length unknown_group_type missing_data missing_group_type : ParseGroupIdError

-- `SpkiHash::from_slice`
unfoldable pub from_slice : Bytes → Option SpkiHash
from_slice slice = if length slice == 32 then some (from_be_bytes 0 slice) else none

-- `slice.split(|c| *c == b'/')`, which has a part for every number of slashes
unfoldable pub split : Bytes → List Bytes
split [] = [] ∷ []
split (b ∷ bs) =
    if b == b'/'
    then [] ∷ split bs
    else elim (split bs) [ [] ↦ (b ∷ []) ∷ [] | part ∷ parts ↦ (b ∷ part) ∷ parts ]

module _ (hex : Hex) where
  unfoldable pub to_hex : SpkiHash → Bytes
  to_hex h = hex.encode (to_be_bytes 32 h)

  unfoldable pub from_hex : Bytes → Option SpkiHash
  unfolding from_slice
  from_hex text = elim (hex.decode text) [ none ↦ none | some bytes ↦ from_slice bytes ]

  unfoldable pub to_group_id : SvalinGroupId → Bytes
  unfolding to_hex
  to_group_id global_group = codes "global"
  to_group_id (device_group h) = codes "device/" ++ to_hex h
  to_group_id (device_meta_group h) = codes "meta/" ++ to_hex h

  -- The second part of the name, as a hash
  abbrev pub parse_hash :
      (SpkiHash → SvalinGroupId) → List Bytes → Result ParseGroupIdError SvalinGroupId
  parse_hash group [] = err missing_data
  parse_hash group (text ∷ _) = elim (from_hex text) [
    | none ↦ err wrong_slice_length
    | some h ↦ ok (group h)
  ]

  unfoldable pub from_group_id : Bytes → Result ParseGroupIdError SvalinGroupId
  unfolding split from_hex
  from_group_id group_id = elim (split group_id) [
    | [] ↦ err missing_group_type
    | first ∷ parts ↦
        if bytes_eq first (codes "device")
        then parse_hash device_group parts
        else if bytes_eq first (codes "meta")
        then parse_hash device_meta_group parts
        else if bytes_eq first (codes "global")
        then ok global_group
        else err unknown_group_type
  ]
