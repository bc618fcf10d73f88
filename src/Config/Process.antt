-- ===== src/Config/Process.antt =====
-- What a run of ProcessMachinesConfig gives.
use andaime.Base.{
  ltb, Bool, true, false, List, [], ◌∷◌, Option, none, some, Text, is_empty, Dict, lookup, length,
  is_zero, ◌≡◌, refl, sym, ap, ◌∙◌, subst, arith, some_eq,
}
use andaime.Machine.{Machine}
use andaime.Remote as Remote
use andaime.Cluster.{find_orchestrator_machine}
use andaime.Config.Create.{
  Config, ConfigError, Checked, ok, err, RawMachine, ◌>>=◌, ◌>>◌, refuse_if, orchestrator_locations,
}
use andaime.Config.{
  ConfigState, Built, unmarshalled, refuse_bad, add_raws, tell_machines, elected, finish_machines,
  build_machines, none_built, process_machines_config, check_config, check_defaults, check_keys,
}
use andaime.Config.Created.{>>=-eq-ok, ok_eq}
use andaime.Config.Elected.{tell_machines-found, elected-Elected, Elected-found}
use andaime.Config.Orchestrators.{NoNegative, add_raws-Grown}

unmarshalled_inv :
    (o : Option (List RawMachine)) (raws : List RawMachine)
    → unmarshalled o ≡ ok raws
    → o ≡ some raws
unmarshalled_inv none raws h = cc
unmarshalled_inv (some r) raws h = ap some (ok_eq r raws h)

refuse_if_inv : (b : Bool) (e : ConfigError) → refuse_if b e ≡ ok tt → b ≡ false
refuse_if_inv true e h = cc
refuse_if_inv false e h = refl

>>-eq-ok {ℓ} :
    {B : Type ℓ} (m : Checked (Unit {0})) (k : Checked B) (b : B)
    → (m >> k) ≡ ok b
    → (m ≡ ok tt) × (k ≡ ok b)
>>-eq-ok (ok tt) k b h = (refl, h)
>>-eq-ok (err e) k b h = cc

check_config_inv :
    (cfg : Config) (raws : List RawMachine)
    → check_config cfg ≡ ok raws
    → (cfg.machines ≡ some raws) × (is_zero cfg.default_count_per_zone ≡ false)
unfolding check_config check_defaults
check_config_inv cfg raws h =
    let after : List RawMachine → Checked (List RawMachine) =
      λ r. check_defaults cfg >> (check_keys cfg >> ok r) in
    let (r, e, k) = >>=-eq-ok (unmarshalled cfg.machines) after raws h in
    let (defaults, k') = >>-eq-ok (check_defaults cfg) (check_keys cfg >> ok r) raws k in
    let (_, k'') = >>-eq-ok (check_keys cfg) (ok r) raws k' in
    (unmarshalled_inv cfg.machines raws (e ∙ k''), ground arith)

-- The parts of a build that went well.
built_parts :
    (cfg : Config) (ip : Text) (raws : List RawMachine) (ms : Dict Machine) (ls : Dict Bool)
    → build_machines cfg ip raws ≡ ok (ms, ls)
    → (ltb 1 (length (orchestrator_locations cfg.default_count_per_zone raws)) ≡ false)
      × ((b : Built) × (add_raws cfg raws none_built ≡ ok b)
          × (elected (tell_machines ip b.machines) ≡ ok ms))
unfolding build_machines finish_machines
built_parts cfg ip raws ms ls h =
    let many = ltb 1 (length (orchestrator_locations cfg.default_count_per_zone raws)) in
    let (g, h') =
      >>-eq-ok (refuse_if many ConfigError.multiple_orchestrators)
        (add_raws cfg raws none_built >>= finish_machines ip) (ms, ls) h in
    let (b, e, k) = >>=-eq-ok (add_raws cfg raws none_built) (finish_machines ip) (ms, ls) h' in
    let (_, k') =
      >>-eq-ok (refuse_bad b.bad)
        (elected (tell_machines ip b.machines) >>= λ ms. ok (ms, b.locations)) (ms, ls) k in
    let (x, e', p) =
      >>=-eq-ok (elected (tell_machines ip b.machines)) (λ ms. ok (ms, b.locations)) (ms, ls) k' in
    (
      refuse_if_inv many ConfigError.multiple_orchestrators g,
      (b, e, e' ∙ ap ok (ap (λ q. q.0) (ok_eq (x, b.locations) (ms, ls) p))),
    )

process_parts :
    (cfg : Config) (s s' : ConfigState) (ms : Dict Machine) (ls : Dict Bool)
    → process_machines_config cfg s ≡ (ok (ms, ls), s')
    → (raws : List RawMachine) × (check_config cfg ≡ ok raws)
      × (build_machines cfg s.orchestrator_ip raws ≡ ok (ms, ls))
unfolding process_machines_config
process_parts cfg s s' ms ls h = go (check_config cfg) refl
  where
    go :
        (c : Checked (List RawMachine))
        → check_config cfg ≡ c
        → (raws : List RawMachine) × (check_config cfg ≡ ok raws)
          × (build_machines cfg s.orchestrator_ip raws ≡ ok (ms, ls))
    go (err e) q = absurd (ground arith)
    go (ok raws) q = (raws, q, ground arith)

-- If no orchestrator's address is known and no count of the configuration is negative, the machines
-- that the configuration gives have exactly one orchestrator that FindOrchestratorMachine finds.
pub process_machines_config_elects :
    (cfg : Config) (s s' : ConfigState) (raws : List RawMachine) (ms : Dict Machine)
    (ls : Dict Bool)
    → cfg.machines ≡ some raws
    → NoNegative raws
    → is_empty s.orchestrator_ip ≡ true
    → process_machines_config cfg s ≡ (ok (ms, ls), s')
    → (m : Machine) × (find_orchestrator_machine ms ≡ Remote.ok m)
process_machines_config_elects cfg s s' raws ms ls r n ip h =
    let (raws', c, k) = process_parts cfg s s' ms ls h in
    let (r', d) = check_config_inv cfg raws' c in
    let n' : NoNegative raws' = subst NoNegative (some_eq raws raws' (sym r ∙ r')) n in
    let (few, (b, e, k')) = built_parts cfg s.orchestrator_ip raws' ms ls k in
    let (grown, up) = add_raws-Grown cfg raws' none_built b n' d e in
    Elected-found ms (
      elected-Elected b.machines ms
        (sym (ap elected (tell_machines-found s.orchestrator_ip b.machines ip)) ∙ k') (ground arith)
        (up tt))

told-lookup :
    (ip k : Text) (m : Machine) (ms : Dict Machine)
    → is_empty ip ≡ false
    → lookup k (tell_machines ip ms).0 ≡ some m
    → m.orchestrator_ip ≡ ip
unfolding tell_machines lookup
told-lookup ip k m [] e h = cc
told-lookup ip k m ((j, n) ∷ ms) e h = ground (arith, told-lookup ip k m ms e)

tells_elected :
    (ip : Text) (ms ms' : Dict Machine)
    → is_empty ip ≡ false
    → elected (tell_machines ip ms) ≡ ok ms'
    → (tell_machines ip ms).0 ≡ ms'
unfolding tell_machines
tells_elected ip [] ms' e h = cc
tells_elected ip ((k, m) ∷ ms) ms' e h = ground arith

-- If an orchestrator's address is known, every machine that the configuration gives has been told it.
pub process_machines_config_tells :
    (cfg : Config) (s s' : ConfigState) (ms : Dict Machine) (ls : Dict Bool) (k : Text)
    (m : Machine)
    → is_empty s.orchestrator_ip ≡ false
    → process_machines_config cfg s ≡ (ok (ms, ls), s')
    → lookup k ms ≡ some m
    → m.orchestrator_ip ≡ s.orchestrator_ip
process_machines_config_tells cfg s s' ms ls k m ip h l =
    let (raws, _, built) = process_parts cfg s s' ms ls h in
    let (_, (b, _, e)) = built_parts cfg s.orchestrator_ip raws ms ls built in
    told-lookup s.orchestrator_ip k m b.machines ip
      (ap (lookup k) (tells_elected s.orchestrator_ip b.machines ms ip e) ∙ l)
