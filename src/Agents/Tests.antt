-- ===== src/Agents/Tests.antt =====
-- A profile that is narrowed twice.
use equi_seek.Prelude.{String, ◌≡◌, refl, true, false, none, some, [], ◌∷◌, elem, all}
use equi_seek.Data.Text.{prefix}
use equi_seek.Harness.Checked.{ok, demand}
use equi_seek.Agents.Profiles.{ℤ, AgentProfileSnapshot, Narrowing, is_subset, narrow}
use equi_seek.Agents.Descent.{IsWithin, Descends, Descends-IsWithin}

abbrev digest_of : AgentProfileSnapshot → String
digest_of p = p.id

abbrev root : AgentProfileSnapshot
root = record {
  id = "analyst";
  generation = "profile-analyst";
  parent_generation = none;
  description = "reads filings";
  allowed_handlers = "research" ∷ "report" ∷ [];
  allowed_skills = "macro" ∷ [];
  allowed_tools = "read" ∷ "search" ∷ "write" ∷ [];
  capabilities = [];
  max_concurrency = 4;
  max_depth = 2;
  max_children = 3;
  network_allowed = true;
  digest = "analyst";
}

abbrev reader : Narrowing
reader = record {
  profile_id = "reader";
  handlers = some ("research" ∷ []);
  skills = none;
  tools = some ("search" ∷ "read" ∷ []);
  features = none;
  concurrency = some (ℤ.pos 2);
  depth = some (ℤ.pos 1);
  children = none;
  network = some false;
}

abbrev offline : Narrowing
offline = record {
  profile_id = "offline";
  handlers = none;
  skills = some [];
  tools = none;
  features = none;
  concurrency = none;
  depth = some (ℤ.pos 0);
  children = some (ℤ.pos 1);
  network = none;
}

abbrev child : AgentProfileSnapshot
child = record root {
  id = "reader";
  generation = "profile-reader";
  parent_generation = some "profile-analyst";
  allowed_handlers = "research" ∷ [];
  allowed_tools = "search" ∷ "read" ∷ [];
  max_concurrency = 2;
  max_depth = 1;
  network_allowed = false;
  digest = "reader";
}

abbrev grandchild : AgentProfileSnapshot
grandchild = record child {
  id = "offline";
  generation = "profile-offline";
  parent_generation = some "profile-reader";
  allowed_skills = [];
  max_depth = 0;
  max_children = 1;
  digest = "offline";
}

first : narrow digest_of reader root ≡ ok child
unfolding narrow demand is_subset elem all prefix
first = refl

second : narrow digest_of offline child ≡ ok grandchild
unfolding narrow demand is_subset elem all prefix
second = refl

Descends-IsWithin_example : IsWithin grandchild root
Descends-IsWithin_example = Descends-IsWithin digest_of root grandchild (
    Descends.narrowed offline child grandchild
      (Descends.narrowed reader root child Descends.itself first) second)
