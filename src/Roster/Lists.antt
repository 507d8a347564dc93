-- ===== src/Roster/Lists.antt =====
-- The lists of members and of overrides (pkg/roster/store.go, with ListMembers of service.go).
use nightowl.Base.{
  ℕ, String, Bool, true, false, List, [], ◌∷◌, map, some, leb, ◌==◌, select, sort_with,
}
use nightowl.Sql.{Sql, SqlError, ok, pure, query, ◌>>=◌, attempt}
use nightowl.Schema.{Database, Member, Override}
use nightowl.Roster.Store.{OverrideResponse, user_name, count_primary_weeks, count_secondary_weeks}
use nightowl.Roster.Generate.{result_or}

-- MemberResponse.
pub record MemberResponse : Type 0 where
  pub member : Member
  pub display_name : String
  pub primary_weeks_served : ℕ
  pub secondary_weeks_served : ℕ

-- ORDER BY rm.is_active DESC, rm.joined_at
abbrev before : Bool → Bool → Bool → Bool
before true false joined = true
before false true joined = false
before true true joined = joined
before false false joined = joined

abbrev active_first : Member → Member → Bool
active_first m n = before m.is_active n.is_active (leb m.joined_at n.joined_at)

abbrev newest_first : Override → Override → Bool
newest_first o p = leb p.start_at o.start_at

module _ (uuid_text : ℕ → String) where
  abbrev member_response : Database → Member → MemberResponse
  member_response db m = record {
    member = m;
    display_name = user_name db (some m.user_id) (uuid_text m.user_id);
    primary_weeks_served = 0;
    secondary_weeks_served = 0;
  }

  unfoldable pub list_member_rows : ℕ → Sql Database SqlError (List MemberResponse)
  list_member_rows roster_id = query λ db. ok (
      map (member_response db)
        (sort_with active_first (select (λ m. m.roster_id == roster_id) db.roster_members)))

  -- A count that cannot be read is 0.
  unfoldable pub enrich_members :
      ℕ → List MemberResponse → Sql Database SqlError (List MemberResponse)
  enrich_members roster_id [] = pure []
  enrich_members roster_id (m ∷ ms) = do
    primary ← attempt (count_primary_weeks roster_id m.member.user_id)
    secondary ← attempt (count_secondary_weeks roster_id m.member.user_id)
    rest ← enrich_members roster_id ms
    pure (
        record m {
          primary_weeks_served = result_or primary 0;
          secondary_weeks_served = result_or secondary 0;
        }
        ∷ rest)

  unfoldable pub list_members : ℕ → Sql Database SqlError (List MemberResponse)
  list_members roster_id = do members ← list_member_rows roster_id; enrich_members roster_id members

  unfoldable pub list_overrides : ℕ → Sql Database SqlError (List OverrideResponse)
  list_overrides roster_id = query λ db. ok (
      map
        (λ o. record {
          override = o;
          display_name = user_name db (some o.user_id) (uuid_text o.user_id);
        })
        (sort_with newest_first (select (λ o. o.roster_id == roster_id) db.roster_overrides)))
