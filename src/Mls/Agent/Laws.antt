-- ===== src/Mls/Agent/Laws.antt =====
-- svalin_pki/src/mls/agent.rs: the comparison of groups and the kind of a message.
use svalin.Prelude.{◌≡◌, refl, ap, true}
use svalin.Prelude.Tests.{==_iff}
use svalin.Prelude.Result.{ok}
use svalin.Mls.GroupId.{SvalinGroupId, global_group, device_group, device_meta_group}
use svalin.Mls.OpenMls.{OpenMls}
use svalin.Mls.Processor.{MemberContent, message_content, staged_content}
use svalin.Mls.Agent.{id_eq, staged_of}

pub id_eq_sound : (a b : SvalinGroupId) → id_eq a b ≡ true → a ≡ b
id_eq_sound global_group global_group h = refl
id_eq_sound global_group (device_group b) h = absurd (cc)
id_eq_sound global_group (device_meta_group b) h = absurd (cc)
id_eq_sound (device_group a) global_group h = absurd (cc)
id_eq_sound (device_group a) (device_group b) h = ap device_group ((==_iff a b).0 h)
id_eq_sound (device_group a) (device_meta_group b) h = absurd (cc)
id_eq_sound (device_meta_group a) global_group h = absurd (cc)
id_eq_sound (device_meta_group a) (device_group b) h = absurd (cc)
id_eq_sound (device_meta_group a) (device_meta_group b) h = ap device_meta_group ((==_iff a b).0 h)

pub staged_of-ok :
    {M : OpenMls} (c : MemberContent M) (staged : M.StagedCommit)
    → staged_of c ≡ ok staged
    → c ≡ staged_content staged
staged_of-ok (message_content bytes) staged h = absurd (cc)
staged_of-ok (staged_content s) staged h = cc
