-- ===== src/Model/Entity.antt =====
-- crates/brolga-model/src/entity.rs, `EntityKind`.
use brolga.Prelude.{ℕ, ◌≡◌, refl, some, List, [], ◌∷◌, Text, codes, text_eq}
use brolga.Model.Vocabulary.{Vocabulary, find_named, nth}

pub data EntityKind : Type 0 where
  threat_actor malware_family tool campaign intrusion_set vulnerability attack_technique
        infrastructure identity incident report asset location sector detection_rule
        software_package :
      EntityKind

abbrev pub all : List EntityKind
all =
    threat_actor ∷ malware_family ∷ tool ∷ campaign ∷ intrusion_set ∷ vulnerability
    ∷ attack_technique ∷ infrastructure ∷ identity ∷ incident ∷ report ∷ asset ∷ location ∷ sector
    ∷ detection_rule ∷ software_package ∷ []

abbrev pub as_str : EntityKind → Text
as_str threat_actor = codes "threat_actor"
as_str malware_family = codes "malware_family"
as_str tool = codes "tool"
as_str campaign = codes "campaign"
as_str intrusion_set = codes "intrusion_set"
as_str vulnerability = codes "vulnerability"
as_str attack_technique = codes "attack_technique"
as_str infrastructure = codes "infrastructure"
as_str identity = codes "identity"
as_str incident = codes "incident"
as_str report = codes "report"
as_str asset = codes "asset"
as_str location = codes "location"
as_str sector = codes "sector"
as_str detection_rule = codes "detection_rule"
as_str software_package = codes "software_package"

-- The derived order, as that of a number.
abbrev pub rank : EntityKind → ℕ
rank threat_actor = 0
rank malware_family = 1
rank tool = 2
rank campaign = 3
rank intrusion_set = 4
rank vulnerability = 5
rank attack_technique = 6
rank infrastructure = 7
rank identity = 8
rank incident = 9
rank report = 10
rank asset = 11
rank location = 12
rank sector = 13
rank detection_rule = 14
rank software_package = 15

pub EntityKind-named : (a : EntityKind) → find_named as_str (as_str a) all ≡ some a
unfolding text_eq
EntityKind-named threat_actor = refl
EntityKind-named malware_family = refl
EntityKind-named tool = refl
EntityKind-named campaign = refl
EntityKind-named intrusion_set = refl
EntityKind-named vulnerability = refl
EntityKind-named attack_technique = refl
EntityKind-named infrastructure = refl
EntityKind-named identity = refl
EntityKind-named incident = refl
EntityKind-named report = refl
EntityKind-named asset = refl
EntityKind-named location = refl
EntityKind-named sector = refl
EntityKind-named detection_rule = refl
EntityKind-named software_package = refl

pub EntityKind-ranked : (a : EntityKind) → nth all (rank a) ≡ some a
EntityKind-ranked threat_actor = refl
EntityKind-ranked malware_family = refl
EntityKind-ranked tool = refl
EntityKind-ranked campaign = refl
EntityKind-ranked intrusion_set = refl
EntityKind-ranked vulnerability = refl
EntityKind-ranked attack_technique = refl
EntityKind-ranked infrastructure = refl
EntityKind-ranked identity = refl
EntityKind-ranked incident = refl
EntityKind-ranked report = refl
EntityKind-ranked asset = refl
EntityKind-ranked location = refl
EntityKind-ranked sector = refl
EntityKind-ranked detection_rule = refl
EntityKind-ranked software_package = refl

abbrev pub entity_kinds : Vocabulary EntityKind
entity_kinds = record {
  all = all;
  as_str = as_str;
  rank = rank;
  named = EntityKind-named;
  ranked = EntityKind-ranked;
}
