-- ===== src/Remote/Store/Laws.antt =====
-- Rows that the statements of src/remote/store.ts find.
use ssh_mcp_pro.Base.{
  ◌≡◌, true, String, string_eq, [], ◌∷◌, some, inl, inr, Bool-cases, arith, ==_refl,
}
use ssh_mcp_pro.Table.{Table, get, IsMap}
use ssh_mcp_pro.Remote.Types.{RemoteAgentRecord}
use ssh_mcp_pro.Remote.Store.{find_alias, has_alias}

found_in_rest :
    (k : String) (row : RemoteAgentRecord) (m : Table String RemoteAgentRecord) (id : String)
    (agent : RemoteAgentRecord)
    → IsMap ((k, row) ∷ m)
    → get id m ≡ some agent
    → get id ((k, row) ∷ m) ≡ some agent
unfolding get
found_in_rest k row m id agent u at = ground (arith, string_eq.equal_iff k id, u.0, at)

-- An agent that is found by its alias is the row of some identifier.
pub find_alias-get :
    (user_id alias : String) (m : Table String RemoteAgentRecord) (agent : RemoteAgentRecord)
    → IsMap m
    → find_alias user_id alias m ≡ some agent
    → (id : String) × (get id m ≡ some agent) × (has_alias user_id alias agent ≡ true)
unfolding find_alias get
find_alias-get user_id alias [] agent u e = absurd (ground arith)
find_alias-get user_id alias ((k, row) ∷ m) agent u e =
    elim (Bool-cases (has_alias user_id alias row)) [
      | inl same ↦ (k, ground (arith, ==_refl k), ground arith)
      | inr other ↦
          let (id, at, same) = find_alias-get user_id alias m agent u.1 (ground arith) in
          (id, found_in_rest k row m id agent u at, same)
    ]
