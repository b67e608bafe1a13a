-- ===== src/Trust/Tests.antt =====
-- Trust: the theorems at a supergroup that is on the list.
use boba_claw.Prelude.{◌≡◌, refl, ◌↔◌, true, false, none, [], ◌∷◌, codes}
use boba_claw.Trust.{
  route_peer_matches, negsuc, DmPolicy, GroupPolicy, ChatKind, allow, TelegramConfig, TrustInput,
  ChannelPeer, evaluate_telegram_trust, RoutingRule, rule_applies,
}
use boba_claw.Trust.Decisions.{IsTrusted, allow_iff}

abbrev cfg : TelegramConfig
cfg = record {
  dm_policy = DmPolicy.pairing;
  allow_from = [];
  group_policy = GroupPolicy.allowlist;
  allowed_groups = negsuc 100554 ∷ [];
  group_require_mention = true;
}

abbrev peer : ChannelPeer
peer = record { channel_name = codes "telegram"; peer = codes "-100555" }

abbrev input : TrustInput
input = record {
  peer = peer;
  chat_kind = ChatKind.supergroup;
  user_id = negsuc 7;
  is_bot_mentioned = true;
  is_reply_to_bot = false;
}

allow_iff_example :
    (evaluate_telegram_trust cfg input none ≡ allow) ↔ IsTrusted cfg input ChatKind.supergroup
allow_iff_example = allow_iff cfg input none

abbrev other_rule : RoutingRule
other_rule = record { channel_name = codes "web"; peer = codes "*"; agent_group = codes "home" }

abbrev work_rule : RoutingRule
work_rule = record {
  channel_name = codes "telegram";
  peer = codes "-100*";
  agent_group = codes "work";
}

applies : rule_applies peer work_rule ≡ true
unfolding route_peer_matches
applies = refl
