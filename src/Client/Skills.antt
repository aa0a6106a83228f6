-- ===== src/Client/Skills.antt =====
-- client/client.go: the calls for skills.
use vassago_sdk.Prelude.{ℕ, Bool, List, some, Text, codes}
use vassago_sdk.Prelude.Int.{ℤ}
use vassago_sdk.Prelude.Effects.{Io}
use vassago_sdk.Client.{Event}
use vassago_sdk.Client.Wire.{Pb, Rpc}
use vassago_sdk.Client.Exchange.{Api, answered}

module _ {pb : Pb} (api : Api pb) (conn : ℕ) where
  unfoldable pub add_skill : Text → Text → List Text → Text → Text → Text → ℤ → Io Event pb.Skill
  add_skill name description triggers category content source_agent priority =
      answered api conn (codes "AddSkill")
        (Rpc.add_skill name description triggers category content source_agent (some priority))
        (λ r. r)

  unfoldable pub get_skill : Text → Io Event pb.Skill
  get_skill id = answered api conn (codes "GetSkill") (Rpc.get_skill id) (λ r. r)

  unfoldable pub list_skills : Text → Text → ℤ → Io Event (List pb.Skill)
  list_skills category source_agent limit =
      answered api conn (codes "ListSkills") (Rpc.list_skills category source_agent (some limit))
        (λ r. r)

  unfoldable pub remove_skill : Text → Io Event Bool
  remove_skill id = answered api conn (codes "RemoveSkill") (Rpc.remove_skill id) (λ r. r)

  unfoldable pub search_skills : Text → Text → ℤ → Io Event (List pb.Skill)
  search_skills query category limit =
      answered api conn (codes "SearchSkills") (Rpc.search_skills query category (some limit))
        (λ r. r)
