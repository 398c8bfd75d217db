-- ===== src/Tests/Signed.antt =====
-- A signed number.
use svalin.Prelude.{ℕ, ◌≡◌, refl, Option, none, some, [], ◌∷◌, ◌++◌}
use svalin.Prelude.Lists.{length, take, drop, take-append, drop-append}
use svalin.Prelude.Result.{ok}
use svalin.Bytes.{Bytes}
use svalin.SignedObject.{SignedCodec, SignedObject, VerifiedObject, verify_object, sign_object}
use svalin.SignedObject.Laws.{ReadsBack, verify_object-sign_object}
use svalin.Tests.Fixtures.{demo, demo_signs, demo_root, root_credential}
use svalin.Tests.GroupFixtures.{demo_verifier}

-- The length of the message, the message and the signature
abbrev split_message : Bytes → Option (Bytes × Bytes)
split_message [] = none
split_message (n ∷ bs) = some (take n bs, drop n bs)

abbrev read_number : Bytes → Option ℕ
read_number (n ∷ []) = some n
read_number _ = none

abbrev number_codec : SignedCodec ℕ
number_codec = record {
  encode_message = λ m s. some (length m ∷ m ++ s);
  decode_message = split_message;
  to_extend = λ n. some (n ∷ []);
  from_bytes = read_number;
}

joined : (m s b : Bytes) → some (length m ∷ m ++ s) ≡ some b → split_message b ≡ some (m, s)
joined m s b h =
    let is : b ≡ length m ∷ m ++ s = cc (h) in rw is (rw (take-append m s, drop-append m s) refl)

number_back : (x : ℕ) (b : Bytes) → some (x ∷ []) ≡ some b → read_number b ≡ some x
number_back x b h = let is : b ≡ x ∷ [] = cc (h) in rw is refl

number_codec-ReadsBack : ReadsBack number_codec
number_codec-ReadsBack = record { message_back = joined; object_back = number_back }

abbrev signed_number : SignedObject
signed_number = record { raw = 1 ∷ 7 ∷ 1 ∷ 7 ∷ []; singer_spki_hash = 1 }

verify_object-sign_object_example :
    verify_object demo number_codec signed_number demo_verifier 2000
    ≡ ok
        (record { signed_object = signed_number; object = 7; signed_by = demo_root.to_certificate })
unfolding sign_object svalin.SignedObject.create_signed
verify_object-sign_object_example =
    verify_object-sign_object demo number_codec demo_signs number_codec-ReadsBack 7 root_credential
      signed_number demo_verifier 2000 demo_root.to_certificate refl refl refl
