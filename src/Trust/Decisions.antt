-- ===== src/Trust/Decisions.antt =====
-- The decisions on a message and on the agent group.
use boba_claw.Prelude.{
  ◌≡◌, refl, ◌↔◌, inl, inr, ◌⊎◌, Bool, true, false, not, ◌&&◌, Option, none, some, List, [], ◌∷◌,
  ◌++◌, All, Bool-cases, Text, arith,
}
use boba_claw.Trust.{
  ℤ, DmPolicy, GroupPolicy, ChatKind, allow, TelegramConfig, TrustInput, ChannelPeer, contains_id,
  decide_dm, evaluate_dm, or_zero, parse_i64, group_allowed, evaluate_group, decide,
  evaluate_telegram_trust, RoutingRule, rule_applies, resolve_agent_group,
}

-- Who may write in a private chat.
abbrev pub MayWrite : TelegramConfig → ℤ → Type 0
MayWrite cfg user_id =
    (cfg.dm_policy ≡ DmPolicy.open_policy) ⊎ (contains_id cfg.allow_from user_id ≡ true)

-- Which messages of a group are for the agent.
abbrev pub IsForAgent : TelegramConfig → TrustInput → Type 0
IsForAgent cfg input =
    ((cfg.group_policy ≡ GroupPolicy.open_policy)
      ⊎ ((cfg.group_policy ≡ GroupPolicy.allowlist)
          × (contains_id cfg.allowed_groups (or_zero (parse_i64 input.peer.peer)) ≡ true)))
    × ((cfg.group_require_mention ≡ false)
        ⊎ ((input.is_bot_mentioned ≡ true) ⊎ (input.is_reply_to_bot ≡ true)))

abbrev pub IsTrusted : TelegramConfig → TrustInput → ChatKind → Type 0
IsTrusted cfg input ChatKind.private_chat = MayWrite cfg input.user_id
IsTrusted cfg input ChatKind.group = IsForAgent cfg input
IsTrusted cfg input ChatKind.supergroup = IsForAgent cfg input
IsTrusted cfg input ChatKind.channel = true ≡ false

dm_allow :
    (cfg : TelegramConfig) (id : ℤ) (code : Option Text) (policy : DmPolicy)
    → cfg.dm_policy ≡ policy
    → (decide_dm cfg id code policy ≡ allow) ↔ MayWrite cfg id
dm_allow cfg id code DmPolicy.open_policy e = (λ h. inl e, λ h. refl)
dm_allow cfg id code DmPolicy.allowlist e =
    (λ h. inr (ground arith), λ m. elim m [ inl o ↦ absurd (ground arith) | inr known ↦ rw known ])
dm_allow cfg id none DmPolicy.pairing e =
    (λ h. inr (ground arith), λ m. elim m [ inl o ↦ absurd (ground arith) | inr known ↦ rw known ])
dm_allow cfg id (some code) DmPolicy.pairing e =
    (λ h. inr (ground arith), λ m. elim m [ inl o ↦ absurd (ground arith) | inr known ↦ rw known ])

-- The rule on mentions.
abbrev Addressed : TelegramConfig → TrustInput → Type 0
Addressed cfg input =
    (cfg.group_require_mention ≡ false)
    ⊎ ((input.is_bot_mentioned ≡ true) ⊎ (input.is_reply_to_bot ≡ true))

abbrev unaddressed : TelegramConfig → TrustInput → Bool
unaddressed cfg input =
    cfg.group_require_mention && not input.is_bot_mentioned && not input.is_reply_to_bot

Addressed-iff :
    (cfg : TelegramConfig) (input : TrustInput)
    → (unaddressed cfg input ≡ false) ↔ Addressed cfg input
Addressed-iff cfg input = (
  λ h. elim (Bool-cases cfg.group_require_mention) [
    | inr off ↦ inl off
    | inl on ↦ elim (Bool-cases input.is_bot_mentioned) [
      | inl m ↦ inr (inl m)
      | inr m ↦ inr (inr (ground (arith, on, m)))
    ]
  ],
  λ a. elim a [
    | inl off ↦ ground (arith, off)
    | inr b ↦ elim b [ inl m ↦ ground (arith, m) | inr r ↦ ground (arith, r) ]
  ],
)

abbrev Allowed : TelegramConfig → ℤ → Type 0
Allowed cfg chat =
    (cfg.group_policy ≡ GroupPolicy.open_policy)
    ⊎ ((cfg.group_policy ≡ GroupPolicy.allowlist) × (contains_id cfg.allowed_groups chat ≡ true))

Allowed-iff :
    (cfg : TelegramConfig) (chat : ℤ) (policy : GroupPolicy)
    → cfg.group_policy ≡ policy
    → (group_allowed cfg chat policy ≡ true) ↔ Allowed cfg chat
Allowed-iff cfg chat GroupPolicy.open_policy e = (λ h. inl e, λ a. refl)
Allowed-iff cfg chat GroupPolicy.allowlist e =
    (λ h. inr (e, h), λ a. elim a [ inl o ↦ absurd (ground arith) | inr l ↦ l.1 ])
Allowed-iff cfg chat GroupPolicy.disabled e = (
  λ h. absurd (ground arith),
  λ a. elim a [ inl o ↦ absurd (ground arith) | inr l ↦ absurd (ground (arith, l.0)) ],
)

group_allow :
    (cfg : TelegramConfig) (input : TrustInput)
    → (evaluate_group cfg input ≡ allow) ↔ IsForAgent cfg input
unfolding evaluate_group
group_allow cfg input =
    let chat = or_zero (parse_i64 input.peer.peer) in
    let (to_allowed, from_allowed) = Allowed-iff cfg chat cfg.group_policy refl in
    let (to_addressed, from_addressed) = Addressed-iff cfg input in
    (
      λ h. elim (Bool-cases (group_allowed cfg chat cfg.group_policy)) [
        | inr shut ↦ absurd (ground (arith, shut))
        | inl in_list ↦ elim (Bool-cases (unaddressed cfg input)) [
          | inl missing ↦ absurd (ground (arith, in_list, missing))
          | inr there ↦ (to_allowed in_list, to_addressed there)
        ]
      ],
      λ t. ground (arith, from_allowed t.0, from_addressed t.1),
    )

allow_kind :
    (cfg : TelegramConfig) (input : TrustInput) (code : Option Text) (kind : ChatKind)
    → (decide cfg input code kind ≡ allow) ↔ IsTrusted cfg input kind
unfolding evaluate_dm
allow_kind cfg input code ChatKind.private_chat = dm_allow cfg input.user_id code cfg.dm_policy refl
allow_kind cfg input code ChatKind.group = group_allow cfg input
allow_kind cfg input code ChatKind.supergroup = group_allow cfg input
allow_kind cfg input code ChatKind.channel =
    (λ h. absurd (ground arith), λ t. absurd (ground arith))

-- A message is let through exactly if its chat is trusted: in a private chat, if the policy is open or
-- the user is on the list; in a group or supergroup, if the policy is open or the group is on the list
-- that the policy asks for, and, where a mention is required, the bot is mentioned or replied to; and
-- never in a channel. No pairing code changes that.
pub allow_iff :
    (cfg : TelegramConfig) (input : TrustInput) (code : Option Text)
    → (evaluate_telegram_trust cfg input code ≡ allow) ↔ IsTrusted cfg input input.chat_kind
unfolding evaluate_telegram_trust
allow_iff cfg input code = allow_kind cfg input code input.chat_kind

-- The group of the first rule that applies, and the default group if none does: stated for rules in
-- front of which none applies.
pub first_rule_wins :
    (default_group : Text) (before rules : List RoutingRule) (rule : RoutingRule)
    (peer : ChannelPeer)
    → All (λ r. rule_applies peer r ≡ false) before
    → rule_applies peer rule ≡ true
    → (resolve_agent_group default_group before peer ≡ default_group)
      × (resolve_agent_group default_group (before ++ rule ∷ rules) peer ≡ rule.agent_group)
unfolding resolve_agent_group
first_rule_wins default_group [] rules rule peer a h = (refl, rw h)
first_rule_wins default_group (r ∷ before) rules rule peer a h =
    let (none_applies, first) = first_rule_wins default_group before rules rule peer a.1 h in
    (rw (a.0) none_applies, rw (a.0) first)
