-- ===== src/Trust.antt =====
-- crates/bobaclaw-core/src/policy.rs with the policies of channels.rs: who may talk to the agent over
-- Telegram, and which agent group answers.
--
-- An `i64` is an integer; `parse_i64` is `str::parse::<i64>`.
pub mod Decisions
pub mod Tests
use boba_claw.Prelude.{
  ℕ, zero, suc, ◌+◌, ◌-◌, ◌*◌, ◌^◌, String, str_eq, Bool, true, false, not, ◌&&◌, ◌||◌, Option,
  none, some, List, [], ◌∷◌, reverse, if◌then◌else◌, ltb, leb, ◌==◌, any, Text, text_eq,
  starts_with,
}

pub data ℤ : Type 0 where
  pos : ℕ → ℤ
  negsuc : ℕ → ℤ

abbrev pub int_eq : ℤ → ℤ → Bool
int_eq (pos m) (pos n) = m == n
int_eq (pos m) (negsuc n) = false
int_eq (negsuc m) (pos n) = false
int_eq (negsuc m) (negsuc n) = m == n

-- A text of decimal digits, from the number read so far.
abbrev pub digits_from : ℕ → Text → Option ℕ
digits_from n [] = some n
digits_from n (c ∷ s) = if leb 48 c && leb c 57 then digits_from (n * 10 + (c - 48)) s else none

abbrev pub digits : Text → Option ℕ
digits [] = none
digits (c ∷ s) = digits_from 0 (c ∷ s)

abbrev pub positive : Option ℕ → Option ℤ
positive none = none
positive (some n) = if ltb n (2 ^ 63) then some (pos n) else none

abbrev pub negative : Option ℕ → Option ℤ
negative none = none
negative (some zero) = some (pos 0)
negative (some (suc n)) = if ltb n (2 ^ 63) then some (negsuc n) else none

unfoldable pub parse_i64 : Text → Option ℤ
parse_i64 [] = none
parse_i64 (c ∷ s) =
    if c == b'-'
    then negative (digits s)
    else if c == b'+'
    then positive (digits s)
    else positive (digits (c ∷ s))

pub data DmPolicy : Type 0 where
  open_policy allowlist pairing : DmPolicy

pub data GroupPolicy : Type 0 where
  open_policy allowlist disabled : GroupPolicy

pub data ChatKind : Type 0 where
  private_chat group supergroup channel : ChatKind

pub data TrustDecision : Type 0 where
  allow deny : TrustDecision
  pending_pairing : Text → TrustDecision

pub record TelegramConfig : Type 0 where
  pub dm_policy : DmPolicy
  pub allow_from : List ℤ
  pub group_policy : GroupPolicy
  pub allowed_groups : List ℤ
  pub group_require_mention : Bool

pub record ChannelPeer : Type 0 where
  pub channel_name : Text
  pub peer : Text

pub record TrustInput : Type 0 where
  pub peer : ChannelPeer
  pub chat_kind : ChatKind
  pub user_id : ℤ
  pub is_bot_mentioned : Bool
  pub is_reply_to_bot : Bool

abbrev pub contains_id : List ℤ → ℤ → Bool
contains_id ids id = any (int_eq id) ids

abbrev pub pending_or_deny : Option Text → TrustDecision
pending_or_deny none = deny
pending_or_deny (some code) = pending_pairing code

abbrev pub decide_dm : TelegramConfig → ℤ → Option Text → DmPolicy → TrustDecision
decide_dm cfg user_id code DmPolicy.open_policy = allow
decide_dm cfg user_id code DmPolicy.allowlist =
    if contains_id cfg.allow_from user_id then allow else deny
decide_dm cfg user_id code DmPolicy.pairing =
    if contains_id cfg.allow_from user_id then allow else pending_or_deny code

unfoldable pub evaluate_dm : TelegramConfig → ℤ → Option Text → TrustDecision
evaluate_dm cfg user_id code = decide_dm cfg user_id code cfg.dm_policy

abbrev pub or_zero : Option ℤ → ℤ
or_zero none = pos 0
or_zero (some n) = n

abbrev pub group_allowed : TelegramConfig → ℤ → GroupPolicy → Bool
group_allowed cfg chat_id GroupPolicy.open_policy = true
group_allowed cfg chat_id GroupPolicy.allowlist = contains_id cfg.allowed_groups chat_id
group_allowed cfg chat_id GroupPolicy.disabled = false

unfoldable pub evaluate_group : TelegramConfig → TrustInput → TrustDecision
evaluate_group cfg input =
    let chat_id = or_zero (parse_i64 input.peer.peer) in
    if not (group_allowed cfg chat_id cfg.group_policy)
    then deny
    else if cfg.group_require_mention && not input.is_bot_mentioned && not input.is_reply_to_bot
    then deny
    else allow

abbrev pub decide : TelegramConfig → TrustInput → Option Text → ChatKind → TrustDecision
decide cfg input code ChatKind.private_chat = evaluate_dm cfg input.user_id code
decide cfg input code ChatKind.channel = deny
decide cfg input code ChatKind.group = evaluate_group cfg input
decide cfg input code ChatKind.supergroup = evaluate_group cfg input

unfoldable pub evaluate_telegram_trust : TelegramConfig → TrustInput → Option Text → TrustDecision
evaluate_telegram_trust cfg input code = decide cfg input code input.chat_kind

pub record RoutingRule : Type 0 where
  pub channel_name : Text
  pub peer : Text
  pub agent_group : Text

-- `strip_suffix('*')`, on the reversed text.
abbrev pub star_prefix : Text → Option Text
star_prefix [] = none
star_prefix (c ∷ s) = if c == b'*' then some (reverse s) else none

abbrev pub matches_pattern : Option Text → Text → Text → Bool
matches_pattern none pattern peer = text_eq pattern peer
matches_pattern (some prefix) pattern peer = starts_with peer prefix

unfoldable pub route_peer_matches : Text → Text → Bool
route_peer_matches pattern peer =
    if text_eq pattern (b'*' ∷ [])
    then true
    else matches_pattern (star_prefix (reverse pattern)) pattern peer

abbrev pub rule_applies : ChannelPeer → RoutingRule → Bool
rule_applies peer rule =
    text_eq rule.channel_name peer.channel_name && route_peer_matches rule.peer peer.peer

unfoldable pub resolve_agent_group : Text → List RoutingRule → ChannelPeer → Text
resolve_agent_group default_group [] peer = default_group
resolve_agent_group default_group (rule ∷ rules) peer =
    if rule_applies peer rule
    then rule.agent_group
    else resolve_agent_group default_group rules peer
