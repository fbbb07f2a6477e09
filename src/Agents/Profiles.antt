-- ===== src/Agents/Profiles.antt =====
-- `AgentProfileSnapshot.narrow` of src/aegisrun/agents/profiles.py. Sets are lists that are read by
-- membership. The limits of a profile are not negative; those that are asked for are any integers.
use Prim.Native.String.{◌++◌}
use equi_seek.Prelude.{
  ℕ, String, Bool, true, false, not, ◌&&◌, ◌||◌, Option, none, some, List, elem, all, ltb,
}
use equi_seek.Data.Text.{prefix}
use equi_seek.Harness.Checked.{Checked, ok, demand}

-- an integer: `negsuc n` is -(n + 1)
pub data ℤ : Type 0 where
  pos : ℕ → ℤ
  negsuc : ℕ → ℤ

-- `x < n`
abbrev pub is_below : ℤ → ℕ → Bool
is_below (ℤ.pos k) n = ltb k n
is_below (ℤ.negsuc k) n = true

-- `x > n`
abbrev pub is_above : ℤ → ℕ → Bool
is_above (ℤ.pos k) n = ltb n k
is_above (ℤ.negsuc k) n = false

-- the integer, where it is not negative
abbrev pub size_of : ℤ → ℕ
size_of (ℤ.pos k) = k
size_of (ℤ.negsuc k) = 0

pub record AgentProfileSnapshot : Type 0 where
  pub id : String
  pub generation : String
  pub parent_generation : Option String
  pub description : String
  pub allowed_handlers : List String
  pub allowed_skills : List String
  pub allowed_tools : List String
  pub capabilities : List String
  pub max_concurrency : ℕ
  pub max_depth : ℕ
  pub max_children : ℕ
  pub network_allowed : Bool
  pub digest : String

-- the arguments of `narrow`
pub record Narrowing : Type 0 where
  pub profile_id : String
  pub handlers : Option (List String)
  pub skills : Option (List String)
  pub tools : Option (List String)
  pub features : Option (List String)
  pub concurrency : Option ℤ
  pub depth : Option ℤ
  pub children : Option ℤ
  pub network : Option Bool

-- `x if x is not None else parent`
abbrev pub or_own {ℓ} : {A : Type ℓ} → Option A → A → A
or_own none own = own
or_own (some x) own = x

-- `candidate <= parent` for sets
unfoldable pub is_subset : List String → List String → Bool
is_subset xs ys = all (λ x. elem x ys) xs

module _ (digest_of : AgentProfileSnapshot → String) where
  -- the child before its digest is known
  abbrev pub child_body : Narrowing → AgentProfileSnapshot → AgentProfileSnapshot
  child_body n p = record {
    id = n.profile_id;
    generation = "";
    parent_generation = some p.generation;
    description = p.description;
    allowed_handlers = or_own n.handlers p.allowed_handlers;
    allowed_skills = or_own n.skills p.allowed_skills;
    allowed_tools = or_own n.tools p.allowed_tools;
    capabilities = or_own n.features p.capabilities;
    max_concurrency = size_of (or_own n.concurrency (ℤ.pos p.max_concurrency));
    max_depth = size_of (or_own n.depth (ℤ.pos p.max_depth));
    max_children = size_of (or_own n.children (ℤ.pos p.max_children));
    network_allowed = or_own n.network p.network_allowed;
    digest = "";
  }

  abbrev pub sealed : AgentProfileSnapshot → AgentProfileSnapshot
  sealed c =
      let digest = digest_of c in
      record c { generation = "profile-" ++ prefix 20 digest; digest = digest }

  unfoldable pub narrow : Narrowing → AgentProfileSnapshot → Checked AgentProfileSnapshot
  narrow n p =
      let concurrency = or_own n.concurrency (ℤ.pos p.max_concurrency) in
      let depth = or_own n.depth (ℤ.pos p.max_depth) in
      let children = or_own n.children (ℤ.pos p.max_children) in
      demand (is_subset (or_own n.handlers p.allowed_handlers) p.allowed_handlers) "ValueError"
        "child profile cannot expand parent handlers"
        (demand (is_subset (or_own n.skills p.allowed_skills) p.allowed_skills) "ValueError"
          "child profile cannot expand parent skills"
          (demand (is_subset (or_own n.tools p.allowed_tools) p.allowed_tools) "ValueError"
            "child profile cannot expand parent tools"
            (demand (is_subset (or_own n.features p.capabilities) p.capabilities) "ValueError"
              "child profile cannot expand parent capabilities"
              (demand (not (is_below concurrency 1 || is_above concurrency p.max_concurrency))
                "ValueError" "child profile concurrency exceeds parent"
                (demand (not (is_below depth 0 || is_above depth p.max_depth)) "ValueError"
                  "child profile depth exceeds parent"
                  (demand (not (is_below children 1 || is_above children p.max_children))
                    "ValueError" "child profile count exceeds parent"
                    (demand (not (or_own n.network p.network_allowed && not p.network_allowed))
                      "ValueError" "child profile cannot enable parent-denied network"
                      (ok (sealed (child_body n p))))))))))
