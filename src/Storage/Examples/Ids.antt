-- ===== src/Storage/Examples/Ids.antt =====
-- The numbers of identifiers, on concrete rows.
use codex_feishu.Prelude.{◌+◌, ◌≡◌, refl, true, false, some, List, [], ◌∷◌}
use codex_feishu.Prelude.Text.{codes, trim_space, is_blank}
use codex_feishu.Storage.ExternalIds.{ExternalId, IdEnv, resolve_external_id}
use codex_feishu.Storage.ExternalIds.Keys.{distinct}
use codex_feishu.Storage.ExternalIds.Numbers.{IsResolved, resolve_external_id-IsResolved}

-- The first attempt gives a number that is taken.
abbrev env : IdEnv
env = record {
  digest = λ ns id attempt. 41 + attempt;
  select_fails = false;
  insert_fails = λ attempt. false;
  lookup_fails = λ attempt. false;
}

abbrev taken : List ExternalId
taken = record { namespace = codes "chat"; external_id = codes "oc_1"; numeric_id = 41 } ∷ []

keys_are_distinct : distinct taken ≡ true
unfolding distinct
keys_are_distinct = refl

namespace_is_named : is_blank (codes "chat") ≡ false
unfolding is_blank trim_space
namespace_is_named = refl

id_is_named : is_blank (codes " oc_2") ≡ false
unfolding is_blank trim_space
id_is_named = refl

gives_next : (resolve_external_id env (codes "chat") (codes " oc_2") taken).0 ≡ some 42
unfolding resolve_external_id
gives_next = refl

resolve_external_id-IsResolved_example :
    IsResolved
      (trim_space (codes "chat"))
      (trim_space (codes " oc_2"))
      taken
      (resolve_external_id env (codes "chat") (codes " oc_2") taken)
resolve_external_id-IsResolved_example =
    resolve_external_id-IsResolved env (codes "chat") (codes " oc_2") taken keys_are_distinct
      namespace_is_named id_is_named
