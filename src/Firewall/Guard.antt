-- ===== src/Firewall/Guard.antt =====
-- What the guard of the firewall promises (lockout.go).
use nexa_panel.Prelude.{
  ℕ, ◌≡◌, refl, sym, subst, ◌∙◌, Bool, true, false, not, ◌||◌, ◌&&◌, some, List, [], ◌∷◌, ◌++◌,
  Text, arith, Bool-cases, inl, inr, All, any, select, map, if◌then◌else◌, text_eq, text_eq_sound,
}
use nexa_panel.Firewall.Lockout.{
  Rule, Status, Change, AccessPort, Reason, Net, action_allow, action_deny, action_delete,
  access_ports, rule_admits, same_rule_body, allows_port, any_other_rule_admits, dedupe,
  carries_session, from_covers, delete_reasons, deny_reasons, assess_lockout, revert_for,
  carries_your_session, only_rule_admitting, denies_you,
}

dedupe-empty : (values : List Reason) → dedupe [] values ≡ [] → values ≡ []
unfolding dedupe
dedupe-empty [] e = refl
dedupe-empty (value ∷ values) e = absurd (ground arith)

-- A list of reasons by port is empty only if no port gives one.
no_port :
    (f : AccessPort → Reason) (q : AccessPort → Bool) (ports : List AccessPort)
    → map f (select q ports) ≡ []
    → All (λ (p : AccessPort). q p ≡ false) ports
no_port f q [] e = tt
no_port f q (p ∷ ports) e = elim (Bool-cases (q p)) [
  | inl given ↦ absurd (ground arith)
  | inr missing ↦ (missing, no_port f q ports (sym (rw missing refl) ∙ e))
]

append_empty : (xs ys : List Reason) → xs ++ ys ≡ [] → (xs ≡ []) × (ys ≡ [])
append_empty [] ys e = (refl, e)
append_empty (x ∷ xs) ys e = absurd (ground arith)

same_rule_body-admits :
    (a b : Rule) (port : ℕ) → same_rule_body a b ≡ true → rule_admits a port ≡ rule_admits b port
unfolding same_rule_body rule_admits
same_rule_body-admits a b port e =
    let ports : a.port ≡ b.port = text_eq_sound a.port b.port (ground arith) in
    let protocols : a.protocol ≡ b.protocol = text_eq_sound a.protocol b.protocol (ground arith) in
    rw (ports, protocols) refl

-- The rules that are left when every rule of the deleted body is gone.
abbrev pub left_after : Rule → List Rule → List Rule
left_after rule rules = select (λ e. not (same_rule_body e rule)) rules

-- A port that the deleted rule does not admit loses no rule.
other_left :
    (rule : Rule) (port : ℕ) (rules : List Rule)
    → rule_admits rule port ≡ false
    → any (allows_port port) rules ≡ true
    → any (allows_port port) (left_after rule rules) ≡ true
other_left rule port [] closed h = h
other_left rule port (e ∷ rules) closed h = elim (Bool-cases (same_rule_body e rule)) [
  | inl same ↦
      let none_here : rule_admits e port ≡ false =
        same_rule_body-admits e rule port same ∙ closed in
      rw same (other_left rule port rules closed (ground arith))
  | inr other ↦ rw other (ground (arith, other_left rule port rules closed))
]

found_left :
    (rule : Rule) (port : ℕ) (rules : List Rule)
    → any
        (λ e. text_eq e.action action_allow && (not (same_rule_body e rule) && rule_admits e port))
        rules
      ≡ true
    → any (allows_port port) (left_after rule rules) ≡ true
found_left rule port [] h = h
found_left rule port (e ∷ rules) h = elim (Bool-cases (same_rule_body e rule)) [
  | inl same ↦ rw same (found_left rule port rules (ground arith))
  | inr other ↦ rw other (ground (arith, found_left rule port rules))
]

module _ (net : Net) (status : Status) (rule : Rule) (peer : Text) where
  kept_by_port :
      (ports : List AccessPort)
      → All
          (λ (p : AccessPort).
            (rule_admits rule p.number && not (any_other_rule_admits status rule p.number)) ≡ false)
          ports
      → All
          (λ (p : AccessPort).
            any (allows_port p.number) status.rules ≡ true
            → any (allows_port p.number) (left_after rule status.rules) ≡ true)
          ports
  unfolding any_other_rule_admits
  kept_by_port [] a = tt
  kept_by_port (p ∷ ports) (h, a) = (
    λ before. elim (Bool-cases (rule_admits rule p.number)) [
      | inr closed ↦ other_left rule p.number status.rules closed before
      | inl given ↦ found_left rule p.number status.rules (ground arith)
    ],
    kept_by_port ports a,
  )

  assess_lockout-delete :
      status.active ≡ true
      → text_eq rule.action action_allow ≡ true
      → assess_lockout net status (record { action = action_delete; rule = rule }) peer
        ≡ dedupe [] (delete_reasons net status rule peer)
  unfolding assess_lockout text_eq
  assess_lockout-delete active allow = rw active (rw allow refl)

  no_session :
      (if carries_session net rule peer then carries_your_session ∷ [] else []) ≡ []
      → carries_session net rule peer ≡ false
  no_session e = ground arith

  -- Where the firewall is active and the guard finds no reason against the deletion of an allow rule,
  -- the rule does not carry the session that asks for it, and each of the ports of SSH and the panel
  -- that some rule admits is still admitted by a rule once all rules of the deleted body are gone.
  pub deleted_keeps_access :
      status.active ≡ true
      → text_eq rule.action action_allow ≡ true
      → assess_lockout net status (record { action = action_delete; rule = rule }) peer ≡ []
      → (carries_session net rule peer ≡ false)
        × All
            (λ (p : AccessPort).
              any (allows_port p.number) status.rules ≡ true
              → any (allows_port p.number) (left_after rule status.rules) ≡ true)
            access_ports
  unfolding delete_reasons
  deleted_keeps_access active allow clear =
      let nothing : delete_reasons net status rule peer ≡ [] =
        dedupe-empty _ (sym (assess_lockout-delete active allow) ∙ clear) in
      let (session, ports) = append_empty _ _ nothing in
      (
        no_session session,
        kept_by_port access_ports (
            no_port (λ (p : AccessPort). only_rule_admitting p.number)
              (λ (p : AccessPort).
                rule_admits rule p.number && not (any_other_rule_admits status rule p.number))
              access_ports ports),
      )

module _ (net : Net) (status : Status) (rule : Rule) (peer : Text) where
  assess_lockout-deny :
      status.active ≡ true
      → assess_lockout net status (record { action = action_deny; rule = rule }) peer
        ≡ dedupe [] (deny_reasons net rule peer)
  unfolding assess_lockout text_eq
  assess_lockout-deny active = rw active refl

  spared :
      (ports : List AccessPort)
      → All
          (λ (p : AccessPort).
            (rule_admits rule p.number && from_covers net rule.from peer) ≡ false)
          ports
      → All
          (λ (p : AccessPort).
            rule_admits rule p.number ≡ true → from_covers net rule.from peer ≡ false)
          ports
  spared [] a = tt
  spared (p ∷ ports) (h, a) = (λ given. sym (rw given refl) ∙ h, spared ports a)

  -- Where the firewall is active and the guard finds no reason against a deny rule, the rule covers
  -- none of the ports of SSH and the panel for the address that asks for it.
  pub denied_spares_peer :
      status.active ≡ true
      → assess_lockout net status (record { action = action_deny; rule = rule }) peer ≡ []
      → All
          (λ (p : AccessPort).
            rule_admits rule p.number ≡ true → from_covers net rule.from peer ≡ false)
          access_ports
  unfolding deny_reasons
  denied_spares_peer active clear = spared access_ports (
      no_port (λ (p : AccessPort). denies_you p.number)
        (λ (p : AccessPort). rule_admits rule p.number && from_covers net rule.from peer)
        access_ports (dedupe-empty _ (sym (assess_lockout-deny active) ∙ clear)))

not_delete :
    (t : Text)
    → (text_eq t action_deny || text_eq t action_allow) ≡ true
    → text_eq t action_delete ≡ false
unfolding text_eq
not_delete t h = elim (Bool-cases (text_eq t action_deny)) [
  | inl e ↦ subst (λ u. text_eq u action_delete ≡ false) (sym (text_eq_sound t action_deny e)) refl
  | inr e ↦
      subst (λ u. text_eq u action_delete ≡ false)
        (sym (text_eq_sound t action_allow (ground arith))) refl
]

-- What a change does to the rules: a rule is added or taken away, with its verb and the rest of its body.
pub record Effect : Type 0 where
  pub added : Bool
  pub verb : Text
  pub body : Rule

abbrev pub effect_of : Change → Effect
effect_of change = record {
  added = not (text_eq change.action action_delete);
  verb = if text_eq change.action action_delete then change.rule.action else change.action;
  body = record (change.rule) { action = [] };
}

-- One adds what the other takes away.
pub record Undoes (c change : Change) : Type 0 where
  pub other_way : (effect_of c).added ≡ not (effect_of change).added
  pub same_verb : (effect_of c).verb ≡ (effect_of change).verb
  pub same_body : (effect_of c).body ≡ (effect_of change).body

abbrev pub is_verb : Text → Bool
is_verb t = text_eq t action_deny || text_eq t action_allow

-- A change that adds or takes away a rule with the verb allow or deny has a revert, which takes away or
-- adds a rule with the same verb and the same body, whatever verb an addition carries in its rule; and the
-- revert of the revert does what the change does.
pub revert_for-Undoes :
    (change : Change)
    → is_verb (effect_of change).verb ≡ true
    → (c : Change) × (revert_for change ≡ some c)
      × Undoes c change
      × (again : Change) × (revert_for c ≡ some again)
      × (effect_of again ≡ effect_of change)
unfolding revert_for text_eq
revert_for-Undoes change verb = elim (Bool-cases (text_eq change.action action_delete)) [
  | inl e ↦
      let v : is_verb change.rule.action ≡ true = rw e at verb in
      let n = not_delete change.rule.action v in
      let c : Change = record { action = change.rule.action; rule = change.rule } in
      (
        c,
        rw e refl,
        record { other_way = rw (e, n) refl; same_verb = rw (e, n) refl; same_body = refl },
        record { action = action_delete; rule = change.rule },
        rw (n, v) refl,
        rw e refl,
      )
  | inr e ↦
      let v : is_verb change.action ≡ true = rw e at verb in
      let rule : Rule = record (change.rule) { action = change.action } in
      (
        record { action = action_delete; rule = rule },
        rw (e, v) refl,
        record { other_way = rw e refl; same_verb = rw e refl; same_body = refl },
        record { action = change.action; rule = rule },
        refl,
        rw e refl,
      )
]
