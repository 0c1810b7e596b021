-- ===== src/Config/Checks.antt =====
-- config.go: which configurations are accepted.
use fleeting_plugin_vcd.Base.{
  ◌≡◌, refl, ◌≢◌, ◌↔◌, ◌⊎◌, inl, inr, String, str_eq, Bool, true, false, none, List, [], ◌∷◌,
  eq_iff, arith, Bool-cases,
}
use fleeting_plugin_vcd.Config.{
  lacks_credentials, is_zero, Plugin, ConfigError, run_checks, field_checks, validate,
}

abbrev pub AreGiven : List String → Type 0
AreGiven [] = Unit
AreGiven (x ∷ xs) = (x ≢ "") × AreGiven xs

-- What a configuration has to have.
abbrev pub IsComplete : (String → Bool) → Plugin → Type 0
IsComplete is_url g =
    AreGiven (
      g.name ∷ g.str_url ∷ g.org ∷ g.token ∷ g.virtual_datacenter ∷ g.network
      ∷ g.instance_group_name ∷ g.vapp_name_prefix ∷ g.catalog ∷ g.template ∷ g.storage_profile
      ∷ [])
    × (is_url g.str_url ≡ true)
    × ((g.ip_allocation_mode ≡ "DHCP") ⊎ (g.ip_allocation_mode ≡ "POOL"))
    × (is_zero g.cpu_count ≡ false)
    × (is_zero g.cores_per_socket ≡ false)
    × (is_zero g.memory_mb ≡ false)

-- The credentials are static and there are none.
abbrev pub LacksCredentials : Plugin → Type 0
LacksCredentials g = (g.use_static_credentials ≡ true) × (g.password ≡ "") × (g.key ≡ none)

abbrev AllPass : List (Bool × ConfigError) → Type 0
AllPass [] = Unit
AllPass ((fails, e) ∷ checks) = (fails ≡ false) × AllPass checks

run_checks-AllPass :
    (checks : List (Bool × ConfigError)) → (run_checks checks ≡ []) ↔ AllPass checks
unfolding run_checks
run_checks-AllPass [] = (λ h. tt, λ h. refl)
run_checks-AllPass ((true, e) ∷ checks) =
    (λ h. absurd (ground (arith, h)), λ h. absurd (ground (arith, h.0)))
run_checks-AllPass ((false, e) ∷ checks) =
    let (there, back) = run_checks-AllPass checks in (λ h. (refl, there h), λ h. back h.1)

pass_given : (t : String) → t ≢ "" → str_eq t "" ≡ false
pass_given t ne = ground (arith, eq_iff t "")

given_pass : (t : String) → str_eq t "" ≡ false → t ≢ ""
given_pass t e = ground (arith, eq_iff t "")

AllPass-IsComplete :
    (is_url : String → Bool) (g : Plugin) → IsComplete is_url g → AllPass (field_checks is_url g)
AllPass-IsComplete is_url g
      ((n, (u, (o, (t, (v, (w, (i, (x, (k, (m, (s, tt))))))))))), url, mode, cpu, cores, mem) =
    let mode_given : str_eq g.ip_allocation_mode "" ≡ false =
      ground (arith, eq_iff g.ip_allocation_mode "", eq_iff "DHCP" "", eq_iff "POOL" "") in
    (
      pass_given g.name n,
      (
        pass_given g.str_url u,
        (
          ground (arith, url),
          (
            pass_given g.org o,
            (
              pass_given g.token t,
              (
                pass_given g.virtual_datacenter v,
                (
                  pass_given g.network w,
                  (
                    mode_given,
                    (
                      ground (
                        arith,
                        mode,
                        eq_iff g.ip_allocation_mode "DHCP",
                        eq_iff g.ip_allocation_mode "POOL",
                      ),
                      (
                        pass_given g.instance_group_name i,
                        (
                          pass_given g.vapp_name_prefix x,
                          (
                            pass_given g.catalog k,
                            (
                              pass_given g.template m,
                              (pass_given g.storage_profile s, (cpu, (cores, (mem, tt)))),
                            ),
                          ),
                        ),
                      ),
                    ),
                  ),
                ),
              ),
            ),
          ),
        ),
      ),
    )

IsComplete-AllPass :
    (is_url : String → Bool) (g : Plugin) → AllPass (field_checks is_url g) → IsComplete is_url g
IsComplete-AllPass is_url g
      (
        n,
        (
          u,
          (url, (o, (t, (v, (w, (y, (z, (i, (x, (k, (m, (s, (cpu, (cores, (mem, tt))))))))))))))),
        ),
      ) =
    (
      (
        given_pass g.name n,
        (
          given_pass g.str_url u,
          (
            given_pass g.org o,
            (
              given_pass g.token t,
              (
                given_pass g.virtual_datacenter v,
                (
                  given_pass g.network w,
                  (
                    given_pass g.instance_group_name i,
                    (
                      given_pass g.vapp_name_prefix x,
                      (
                        given_pass g.catalog k,
                        (given_pass g.template m, (given_pass g.storage_profile s, tt)),
                      ),
                    ),
                  ),
                ),
              ),
            ),
          ),
        ),
      ),
      ground (arith, url),
      ground (arith, z, eq_iff g.ip_allocation_mode "DHCP", eq_iff g.ip_allocation_mode "POOL"),
      cpu,
      cores,
      mem,
    )

lacks_credentials_iff : (g : Plugin) → (lacks_credentials g ≡ true) ↔ LacksCredentials g
unfolding lacks_credentials
lacks_credentials_iff g = (
  λ h. ground (arith, h, eq_iff g.password ""),
  λ (asked, empty, no_key). ground (arith, asked, empty, no_key, eq_iff g.password ""),
)

protocol_given : (is_url : String → Bool) (g : Plugin) → (validate is_url g).0.protocol ≢ ""
unfolding validate
protocol_given is_url g e = ground (arith, e, eq_iff g.protocol "", eq_iff "ssh" "")

-- `validate` accepts a configuration exactly if every required text is given, the URL is valid, the
-- IP allocation mode is DHCP or POOL, the sizes are not 0, and static credentials, when they
-- are asked for, have a password or a key. It sets the protocol, which is never empty afterwards.
pub validate-exact :
    (is_url : String → Bool) (g : Plugin)
    → (((validate is_url g).1 ≡ []) ↔ (¬ LacksCredentials g × IsComplete is_url g))
      × ((validate is_url g).0.protocol ≢ "")
unfolding validate
validate-exact is_url g =
    let (passes, complete) = run_checks-AllPass (field_checks is_url g) in
    let (lacks, none_given) = lacks_credentials_iff g in
    elim (Bool-cases (lacks_credentials g)) [
      | inl yes_lacks ↦
          rw (yes_lacks, validate)
            (
              (λ h. absurd (ground (arith, h)), λ (has, _). absurd (has (lacks yes_lacks))),
              protocol_given is_url g,
            )
      | inr has ↦
          rw (has, validate)
            (
              (
                λ h. (
                  λ l. absurd (ground (arith, has, none_given l)),
                  IsComplete-AllPass is_url g (passes h),
                ),
                λ (_, c). complete (AllPass-IsComplete is_url g c),
              ),
              protocol_given is_url g,
            )
    ]
