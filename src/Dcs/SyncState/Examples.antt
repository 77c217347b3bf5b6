-- ===== src/Dcs/SyncState/Examples.antt =====
-- The `/sync` key of a small cluster, and the theorems of Laws at it.
use patroni.Base.{
  ◌≡◌, refl, true, false, none, some, List, [], ◌∷◌, Text, codes, sorted, insert_sorted, text_lt,
  strip, lstrip, rstrip, is_space, pos,
}
use patroni.Base.Texts.Split.{Every}
use patroni.Collections.CaseInsensitiveSet.{contains}
use patroni.Dcs.SyncState.{SyncState, from_node, voters, members, matches, sync_state}
use patroni.Dcs.SyncState.Laws.{IsName, voters-from_node, matches_voters, matches_members}

abbrev stored : SyncState
stored = record {
  version = none;
  leader = some (codes "Pg0");
  sync_standby = some (codes "pg1, PG2,,");
  quorum = pos 1;
}

abbrev unsorted : List Text
unsorted = codes "pg2" ∷ codes "pg1" ∷ []

unsorted-IsName : Every IsName unsorted
unfolding strip lstrip rstrip is_space
unsorted-IsName = (
  record { some_text = refl; no_comma = (refl, (refl, (refl, tt))); stripped = refl },
  (record { some_text = refl; no_comma = (refl, (refl, (refl, tt))); stripped = refl }, tt),
)

voters-from_node_example :
    voters (from_node none (some (sync_state (some (codes "pg0")) (some unsorted) (some (pos 1)))))
    ≡ codes "pg1" ∷ codes "pg2" ∷ []
unfolding sorted insert_sorted text_lt
voters-from_node_example =
    voters-from_node none (codes "pg0") unsorted (some (pos 1)) refl unsorted-IsName

matches_voters_example :
    matches stored (some (codes "pg2")) false ≡ contains (voters stored) (codes "pg2")
matches_voters_example = matches_voters stored (codes "pg2") refl

pg0-IsName : IsName (codes "Pg0")
unfolding strip lstrip rstrip is_space
pg0-IsName = record { some_text = refl; no_comma = (refl, (refl, (refl, tt))); stripped = refl }

matches_members_example :
    matches stored (some (codes "PG0")) true ≡ contains (members stored) (codes "PG0")
matches_members_example = matches_members stored (codes "Pg0") (codes "PG0") refl pg0-IsName refl
