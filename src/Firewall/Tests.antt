-- ===== src/Firewall/Tests.antt =====
-- Runs of the firewall's guard: two rules for SSH and one for the panel.
use nexa_panel.Prelude.{
  cut_at, atoi, unsigned, signed_value, digits_value, ◌≡◌, refl, true, false, none, some, [], ◌∷◌,
  Text, codes, All, any, text_eq, trim_space, is_space,
}
use nexa_panel.Firewall.Lockout.{
  Rule, Status, Change, AccessPort, Net, action_allow, action_delete, action_deny, deny_reasons,
  access_ports, allows_port, carries_session, assess_lockout, delete_reasons, dedupe, from_covers,
  peer_covered, in_source, equals_parsed, rule_admits, any_other_rule_admits, same_rule_body,
  port_range, range_from, revert_for,
}
use nexa_panel.Firewall.Guard.{
  left_after, denied_spares_peer, deleted_keeps_access, Undoes, effect_of, revert_for-Undoes,
}

-- Addresses as texts that are compared whole, with no prefixes.
abbrev plain_net : Net
plain_net = record { Ip = Text; parse_ip = some; parse_cidr = λ from. none; equal = text_eq }

abbrev allow_rule : Text → Text → Rule
allow_rule port from = record {
  port = port;
  protocol = codes "tcp";
  action = action_allow;
  from = from;
  comment = [];
  v6 = false;
}

abbrev ssh : Rule
ssh = allow_rule (codes "22") []

abbrev ssh_office : Rule
ssh_office = allow_rule (codes "22") (codes "10.0.0.1")

abbrev panel : Rule
panel = allow_rule (codes "80:443") []

abbrev status : Status
status = record { installed = true; active = true; rules = ssh ∷ ssh_office ∷ panel ∷ [] }

ssh_clear :
    assess_lockout plain_net status
      (record { action = action_delete; rule = ssh })
      (codes "10.0.0.1")
    ≡ []
unfolding assess_lockout delete_reasons dedupe carries_session from_covers peer_covered in_source
    equals_parsed rule_admits any_other_rule_admits same_rule_body port_range range_from cut_at atoi
    unsigned signed_value digits_value text_eq trim_space is_space
ssh_clear = refl

deleted_keeps_access_example :
    (carries_session plain_net ssh (codes "10.0.0.1") ≡ false)
    × All
        (λ (p : AccessPort).
          any (allows_port p.number) status.rules ≡ true
          → any (allows_port p.number) (left_after ssh status.rules) ≡ true)
        access_ports
unfolding text_eq
deleted_keeps_access_example =
    deleted_keeps_access plain_net status ssh (codes "10.0.0.1") refl refl ssh_clear

-- A denial whose rule still carries another verb.
abbrev denial : Change
denial = record { action = action_deny; rule = ssh }

revert_for-Undoes_example :
    (c : Change) × (revert_for denial ≡ some c)
    × Undoes c denial
    × (again : Change) × (revert_for c ≡ some again)
    × (effect_of again ≡ effect_of denial)
unfolding text_eq
revert_for-Undoes_example = revert_for-Undoes denial refl

-- A deny rule of another address.
abbrev intruder : Rule
intruder = record (allow_rule (codes "22") (codes "10.0.0.9")) { action = action_deny }

intruder_clear :
    assess_lockout plain_net status
      (record { action = action_deny; rule = intruder })
      (codes "10.0.0.1")
    ≡ []
unfolding assess_lockout deny_reasons dedupe from_covers peer_covered in_source equals_parsed
    rule_admits port_range range_from cut_at atoi unsigned signed_value digits_value text_eq
    trim_space is_space
intruder_clear = refl

denied_spares_peer_example :
    All
      (λ (p : AccessPort).
        rule_admits intruder p.number ≡ true
        → from_covers plain_net intruder.from (codes "10.0.0.1") ≡ false)
      access_ports
denied_spares_peer_example =
    denied_spares_peer plain_net status intruder (codes "10.0.0.1") refl intruder_clear
