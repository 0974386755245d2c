-- ===== src/Firewall/Lockout.antt =====
-- Which changes of the firewall can cut the operator off (internal/modules/firewall/lockout.go, on the
-- types of internal/platform/operators/firewall/firewall.go). Network addresses and their parsers are
-- parameters.
use nexa_panel.Prelude.{
  ℕ, Bool, true, false, not, ◌||◌, ◌&&◌, ◌==◌, Option, none, some, List, [], ◌∷◌, ◌++◌, Text, codes,
  ℤ, atoi, cut_at, pos, negsuc, any, select, map, is_empty, if◌then◌else◌, leb, text_eq, trim_space,
}

pub record Rule : Type 0 where
  pub port : Text
  pub protocol : Text
  pub action : Text
  pub from : Text
  pub comment : Text
  pub v6 : Bool

pub record Status : Type 0 where
  pub installed : Bool
  pub active : Bool
  pub rules : List Rule

pub record Change : Type 0 where
  pub action : Text
  pub rule : Rule

abbrev pub action_allow : Text
action_allow = codes "allow"

abbrev pub action_deny : Text
action_deny = codes "deny"

abbrev pub action_delete : Text
action_delete = codes "delete"

pub record AccessPort : Type 0 where
  pub number : ℕ
  pub label : Text
  pub panel : Bool

abbrev pub access_ports : List AccessPort
access_ports =
    record { number = 22; label = codes "SSH"; panel = false }
    ∷ record { number = 80; label = codes "the panel over HTTP"; panel = true }
    ∷ record { number = 443; label = codes "the panel over HTTPS"; panel = true }
    ∷ []

-- The reasons of `assessLockout`, by what they say: the ports they name are those of `access_ports`.
pub data Reason : Type 0 where
  carries_your_session : Reason
  only_rule_admitting denies_you : ℕ → Reason

abbrev pub pair_of : ℤ → Option ℤ → Option (ℤ × ℤ)
pair_of start none = none
pair_of start (some end) = some (start, end)

unfoldable pub range_from : Option ℤ → Text → Bool → Option (ℤ × ℤ)
range_from none high found = none
range_from (some start) high false = some (start, start)
range_from (some start) high true = pair_of start (atoi (trim_space high))

-- `portRange`
unfoldable pub port_range : Text → Option (ℤ × ℤ)
unfolding range_from
port_range spec =
    let (low, high, found) = cut_at 58 spec in range_from (atoi (trim_space low)) high found

abbrev pub at_least : ℤ → ℕ → Bool
at_least (pos low) port = leb low port
at_least (negsuc low) port = true

abbrev pub at_most : ℤ → ℕ → Bool
at_most (pos high) port = leb port high
at_most (negsuc high) port = false

abbrev pub in_range : ℕ → Option (ℤ × ℤ) → Bool
in_range port none = false
in_range port (some (low, high)) = at_least low port && at_most high port

-- `ruleAdmits`
unfoldable pub rule_admits : Rule → ℕ → Bool
unfolding port_range
rule_admits rule port =
    if not (is_empty rule.protocol) && not (text_eq rule.protocol (codes "tcp"))
    then false
    else if is_empty rule.port
    then true
    else in_range port (port_range rule.port)

-- `sameRuleBody`
unfoldable pub same_rule_body : Rule → Rule → Bool
same_rule_body a b =
    text_eq a.port b.port && (text_eq a.protocol b.protocol && text_eq a.from b.from)

abbrev pub allows_port : ℕ → Rule → Bool
allows_port port existing = text_eq existing.action action_allow && rule_admits existing port

-- `anyOtherRuleAdmits`
unfoldable pub any_other_rule_admits : Status → Rule → ℕ → Bool
unfolding same_rule_body
any_other_rule_admits status candidate port =
    any
      (λ existing.
        text_eq existing.action action_allow
        && (not (same_rule_body existing candidate) && rule_admits existing port))
      status.rules

unfoldable pub reason_eq : Reason → Reason → Bool
reason_eq carries_your_session carries_your_session = true
reason_eq (only_rule_admitting p) (only_rule_admitting q) = p == q
reason_eq (denies_you p) (denies_you q) = p == q
reason_eq _ _ = false

-- `dedupe`
unfoldable pub dedupe : List Reason → List Reason → List Reason
unfolding reason_eq
dedupe seen [] = []
dedupe seen (value ∷ values) =
    let kept = value ∷ dedupe (value ∷ seen) values in
    let dropped = dedupe seen values in if any (reason_eq value) seen then dropped else kept

-- `net.ParseIP`, `net.ParseCIDR` with `Contains`, and `Equal`.
pub record Net : Type 1 where
  pub Ip : Type 0
  pub parse_ip : Text → Option Ip
  pub parse_cidr : Text → Option (Ip → Bool)
  pub equal : Ip → Ip → Bool

module _ (net : Net) where
  unfoldable pub equals_parsed : Option net.Ip → net.Ip → Bool
  equals_parsed none address = false
  equals_parsed (some ip) address = net.equal ip address

  unfoldable pub in_source : Option (net.Ip → Bool) → Text → net.Ip → Bool
  unfolding equals_parsed
  in_source (some contains) from address = contains address
  in_source none from address = equals_parsed (net.parse_ip from) address

  unfoldable pub peer_covered : Text → Option net.Ip → Bool
  unfolding in_source
  peer_covered from none = false
  peer_covered from (some address) = in_source (net.parse_cidr from) from address

  -- `fromCovers`
  unfoldable pub from_covers : Text → Text → Bool
  unfolding peer_covered
  from_covers from peer =
      if is_empty (trim_space from) then true else peer_covered from (net.parse_ip peer)

  -- `carriesSession`
  unfoldable pub carries_session : Rule → Text → Bool
  unfolding from_covers rule_admits
  carries_session rule peer =
      if is_empty peer || not (from_covers rule.from peer)
      then false
      else any (λ (port : AccessPort). port.panel && rule_admits rule port.number) access_ports

  unfoldable pub delete_reasons : Status → Rule → Text → List Reason
  unfolding carries_session any_other_rule_admits rule_admits
  delete_reasons status rule peer =
      (if carries_session rule peer then carries_your_session ∷ [] else [])
      ++ map (λ (port : AccessPort). only_rule_admitting port.number)
          (select
            (λ (port : AccessPort).
              rule_admits rule port.number && not (any_other_rule_admits status rule port.number))
            access_ports)

  unfoldable pub deny_reasons : Rule → Text → List Reason
  unfolding from_covers rule_admits
  deny_reasons rule peer =
      map (λ (port : AccessPort). denies_you port.number)
        (select (λ (port : AccessPort). rule_admits rule port.number && from_covers rule.from peer)
          access_ports)

  -- `assessLockout`
  unfoldable pub assess_lockout : Status → Change → Text → List Reason
  unfolding delete_reasons deny_reasons dedupe
  assess_lockout status change peer =
      if not status.active
      then []
      else if text_eq change.action action_delete
      then (if text_eq change.rule.action action_allow
          then dedupe [] (delete_reasons status change.rule peer)
          else [])
      else if text_eq change.action action_deny
      then dedupe [] (deny_reasons change.rule peer)
      else []

-- `revertFor`; `none` is the error of an action that has no revert.
unfoldable pub revert_for : Change → Option Change
revert_for change =
    if text_eq change.action action_delete
    then some (record { action = change.rule.action; rule = change.rule })
    else if text_eq change.action action_deny || text_eq change.action action_allow
    then some
        (record { action = action_delete; rule = record (change.rule) { action = change.action } })
    else none
