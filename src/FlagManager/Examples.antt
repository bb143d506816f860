-- ===== src/FlagManager/Examples.antt =====
-- Two flagged executions.
use runcor.Common.{◌≡◌, refl, some, [], ◌∷◌, codes, text_eq, List}
use runcor.Common.Dict
use runcor.FlagManager.{
  pending, reviewed, resolved, auto, manual, HumanReviewFlag, Flags, get_flag, update_flag,
}
use runcor.FlagManager.Lifecycle.{
  Call, create, update, calls, Kept, flag_advances, Outcome, update_decides,
}

abbrev first_flag : HumanReviewFlag
first_flag = record {
  execution_id = codes "e1";
  flow_name = codes "brief";
  status = pending;
  reason = codes "low";
  source = auto;
  created_at = 5;
  updated_at = 5;
}

abbrev two_flags : Flags
two_flags =
    (codes "e1", first_flag)
    ∷ (codes "e2", record first_flag { execution_id = codes "e2"; status = reviewed })
    ∷ []

abbrev reviews : List Call
reviews =
    create (codes "e1") (codes "other") (codes "again") manual 6
    ∷ update (codes "e1") resolved 7
    ∷ update (codes "e1") reviewed 8
    ∷ []

found_first : get_flag (codes "e1") two_flags ≡ some first_flag
unfolding get_flag Dict.get
found_first = refl

flag_advances_example : Kept first_flag (get_flag (codes "e1") (calls reviews two_flags))
flag_advances_example = flag_advances reviews (codes "e1") first_flag two_flags found_first

update_decides_example :
    Outcome
      (get_flag (codes "e2") two_flags)
      (codes "e2")
      resolved
      9
      two_flags
      (update_flag (codes "e2") resolved 9 two_flags)
update_decides_example = update_decides (codes "e2") resolved 9 two_flags
