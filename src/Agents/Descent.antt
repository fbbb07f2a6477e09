-- ===== src/Agents/Descent.antt =====
-- How a profile that src/aegisrun/agents/profiles.py narrows compares with the one it comes from.
use equi_seek.Prelude.{
  ℕ, ◌≤◌, String, ◌==◌, eq_iff, ◌≡◌, true, not, ◌||◌, List, [], ◌∷◌, elem, all, arith, Bool-cases,
  inl, inr,
}
use equi_seek.Harness.Checked.{ok, Holds, demand-Holds, Holds-ok}
use equi_seek.Agents.Profiles.{
  ℤ, is_below, is_above, size_of, AgentProfileSnapshot, Narrowing, or_own, is_subset, child_body,
  sealed, narrow,
}

-- each member of the first is one of the second
abbrev pub Subset : List String → List String → Type 0
Subset xs ys = (x : String) → elem x xs ≡ true → elem x ys ≡ true

pub record IsWithin (c p : AgentProfileSnapshot) : Type 0 where
  pub handlers : Subset c.allowed_handlers p.allowed_handlers
  pub skills : Subset c.allowed_skills p.allowed_skills
  pub tools : Subset c.allowed_tools p.allowed_tools
  pub capabilities : Subset c.capabilities p.capabilities
  pub concurrency : c.max_concurrency ≤ p.max_concurrency
  pub depth : c.max_depth ≤ p.max_depth
  pub children : c.max_children ≤ p.max_children
  pub network : c.network_allowed ≡ true → p.network_allowed ≡ true

is_subset-Subset : (xs ys : List String) → is_subset xs ys ≡ true → Subset xs ys
unfolding is_subset all elem
is_subset-Subset [] ys h x m = absurd (cc)
is_subset-Subset (z ∷ xs) ys h x m = elim (Bool-cases (z == x)) [
  | inl same ↦ ground (arith, eq_iff z x)
  | inr other ↦ is_subset-Subset xs ys (ground arith) x (ground arith)
]

size_of_lem :
    (x : ℤ) (low high : ℕ) → not (is_below x low || is_above x high) ≡ true → size_of x ≤ high
size_of_lem (ℤ.pos k) low high h = ground arith
size_of_lem (ℤ.negsuc k) low high h = absurd (cc)

module _ (digest_of : AgentProfileSnapshot → String) where
  narrow-IsWithin :
      (n : Narrowing) (p : AgentProfileSnapshot) → Holds (λ c. IsWithin c p) (narrow digest_of n p)
  unfolding narrow
  narrow-IsWithin n p =
      demand-Holds (λ c. IsWithin c p) _ _ _ _
        (λ handlers.
          demand-Holds (λ c. IsWithin c p) _ _ _ _
            (λ skills.
              demand-Holds (λ c. IsWithin c p) _ _ _ _
                (λ tools.
                  demand-Holds (λ c. IsWithin c p) _ _ _ _
                    (λ features.
                      demand-Holds (λ c. IsWithin c p) _ _ _ _
                        (λ concurrency.
                          demand-Holds (λ c. IsWithin c p) _ _ _ _
                            (λ depth.
                              demand-Holds (λ c. IsWithin c p) _ _ _ _
                                (λ children.
                                  demand-Holds (λ c. IsWithin c p) _ _ _
                                    (ok (sealed digest_of (child_body digest_of n p)))
                                    (λ network. record {
                                      handlers = is_subset-Subset _ p.allowed_handlers handlers;
                                      skills = is_subset-Subset _ p.allowed_skills skills;
                                      tools = is_subset-Subset _ p.allowed_tools tools;
                                      capabilities = is_subset-Subset _ p.capabilities features;
                                      concurrency =
                                          size_of_lem
                                            (or_own n.concurrency (ℤ.pos p.max_concurrency)) 1
                                            p.max_concurrency concurrency;
                                      depth =
                                          size_of_lem (or_own n.depth (ℤ.pos p.max_depth)) 0
                                            p.max_depth depth;
                                      children =
                                          size_of_lem (or_own n.children (ℤ.pos p.max_children)) 1
                                            p.max_children children;
                                      network = λ on. ground arith;
                                    }))))))))

  -- the profiles that narrowing gives, one after the other
  pub data Descends (p : AgentProfileSnapshot) : AgentProfileSnapshot → Type 0 where
    itself : Descends p p
    narrowed :
        (n : Narrowing) (c d : AgentProfileSnapshot)
        → Descends p c
        → narrow digest_of n c ≡ ok d
        → Descends p d

  -- A profile that comes from another by any number of accepted narrowings has no handler, skill, tool or
  -- capability that the other lacks, no limit above the other's, and network access only if the other
  -- has it.
  pub Descends-IsWithin : (p c : AgentProfileSnapshot) → Descends p c → IsWithin c p
  Descends-IsWithin p c (Descends.itself) = record {
    handlers = λ x m. m;
    skills = λ x m. m;
    tools = λ x m. m;
    capabilities = λ x m. m;
    concurrency = omega arith;
    depth = omega arith;
    children = omega arith;
    network = λ on. on;
  }
  Descends-IsWithin p e (Descends.narrowed n c d from step) =
      let above = Descends-IsWithin p c from in
      let here = Holds-ok (λ x. IsWithin x c) (narrow digest_of n c) d step (narrow-IsWithin n c) in
      record {
        handlers = λ x m. above.handlers x (here.handlers x m);
        skills = λ x m. above.skills x (here.skills x m);
        tools = λ x m. above.tools x (here.tools x m);
        capabilities = λ x m. above.capabilities x (here.capabilities x m);
        concurrency = omega (arith, above.concurrency, here.concurrency);
        depth = omega (arith, above.depth, here.depth);
        children = omega (arith, above.children, here.children);
        network = λ on. above.network (here.network on);
      }
