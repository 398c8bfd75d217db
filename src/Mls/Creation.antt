-- ===== src/Mls/Creation.antt =====
-- svalin_pki/src/mls/harness.rs: how a member makes a group that is missing.
pub mod Laws
use svalin.Prelude.{ℕ, not, Bool, true, false, Option, none, some, List, [], ◌∷◌}
use svalin.Prelude.Tests.{◌==◌, if◌then◌else◌}
use svalin.Prelude.Result.{Result, Done, ok, err, panicked, ok_or}
use svalin.Bytes.{Bytes}
use svalin.Platform.{SpkiHash}
use svalin.Verifier.{Verifier}
use svalin.Mls.GroupId.{Hex, SvalinGroupId, to_group_id}
use svalin.Mls.OpenMls.{OpenMls, MemberGroups}
use svalin.Mls.Call.{MlsError, Call, ◌>>=◌, resume, given, retriever_error}
use svalin.Mls.KeyPackage
use svalin.Mls.KeyPackage.{KeyPackage}
use svalin.Mls.Harness.{Harness, KeyRetriever}
use svalin.Mls.Transport.{MessageToServerTransport, retain_others}
use svalin.Mls.Processor.{Processor, create_group, group_exists, get_member}

module _ {M : OpenMls} (G : MemberGroups M) (hex : Hex) (retriever : KeyRetriever M)
    (verifier : Verifier) (now : ℕ) where
  -- `MlsHarness::new`, with the processor of a member
  abbrev pub member_harness : Harness M (Processor G)
  member_harness = record {
    hex = hex;
    key_retriever = retriever;
    verifier = verifier;
    now = now;
    get_member = get_member G;
  }

  -- The loop over the packages that were sent
  unfoldable pub verify_all : List M.KeyPackageIn → Result MlsError (List (KeyPackage M))
  verify_all [] = ok []
  verify_all (first ∷ rest) =
      let later = verify_all rest in
      elim (KeyPackage.verify_package M verifier now first) [
        | err e ↦ err e
        | panicked ↦ panicked
        | ok verified ↦ elim later [
          | ok members ↦ ok (verified ∷ members)
          | err e ↦ err e
          | panicked ↦ panicked
        ]
      ]

  -- Packages are asked for the required members but oneself.
  abbrev pub packages_for : List SpkiHash → Result MlsError (List (KeyPackage M))
  packages_for [] = ok []
  packages_for (first ∷ rest) = elim (retriever.get_key_packages (first ∷ rest)) [
    | none ↦ err retriever_error
    | some unverified ↦ verify_all unverified
  ]

  unfoldable pub get_required_key_packages :
      SvalinGroupId → SpkiHash → Result MlsError (List (KeyPackage M))
  unfolding verify_all retain_others
  get_required_key_packages id me = elim (retriever.get_required_group_members id) [
    | none ↦ err retriever_error
    | some required ↦ packages_for (retain_others me required)
  ]

  unfoldable pub create_if_missing :
      SvalinGroupId → SpkiHash → Bool → Call (Processor G) (Option MessageToServerTransport)
  unfolding get_required_key_packages create_group
  create_if_missing id me true = given (ok none)
  create_if_missing id me false = do
    members ← given (get_required_key_packages id me)
    new_group ← create_group G members (to_group_id hex id)
    given (ok (some new_group))

  unfoldable pub create_group_if_not_exists :
      SvalinGroupId → SpkiHash → Call (Processor G) (Option MessageToServerTransport)
  unfolding group_exists create_if_missing
  create_group_if_not_exists id me = do
    exists ← group_exists G (to_group_id hex id)
    create_if_missing id me exists
