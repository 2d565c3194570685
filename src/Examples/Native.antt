-- ===== src/Examples/Native.antt =====
-- Runs of the libpq backend.
use pg_mcp.Prelude.{true, false, ok, err, ◌≡◌, refl}
use pg_mcp.Protocol.Errors.{commit_outcome_unknown}
use pg_mcp.Libpq.{first_word, take_word, direct_ddl_command_tag}
use pg_mcp.Worker.Backend.{BackendFailure, committed}
use pg_mcp.Worker.Native.{commit, dispatch_commit, execute_command, observation}
use pg_mcp.Worker.Translate.{refused}
use pg_mcp.Worker.Native.Commit.{commit_iff, commit_failure, IsDone, IsFailed}
use pg_mcp.Examples.Data.{adapter, connected, context, inside, down, seen_at_rest}

commit_done :
    (commit (adapter true) context (connected true inside)).0 ≡ ok (committed seen_at_rest)
unfolding commit dispatch_commit execute_command take_word
commit_done = refl

commit_iff_example : IsDone (adapter true) context (connected true inside) seen_at_rest
commit_iff_example =
    (commit_iff (adapter true) context (connected true inside) seen_at_rest).0 commit_done

abbrev lost_commit : BackendFailure
lost_commit =
    refused commit_outcome_unknown (observation (adapter false) (connected false down)) true

commit_lost : (commit (adapter false) context (connected false inside)).0 ≡ err lost_commit
unfolding commit dispatch_commit execute_command
commit_lost = refl

commit_failure_example : IsFailed (adapter false) context (connected false inside) lost_commit
commit_failure_example =
    commit_failure (adapter false) context (connected false inside) lost_commit commit_lost

-- The first word of a tag decides, and any other tag counts as a change of the catalog.
ddl_tags :
    (direct_ddl_command_tag "SELECT 3" ≡ false)
    × (direct_ddl_command_tag "CREATE TABLE" ≡ true)
    × (direct_ddl_command_tag "COPY 3" ≡ true)
    × (direct_ddl_command_tag "" ≡ false)
unfolding direct_ddl_command_tag first_word take_word
ddl_tags = (refl, refl, refl, refl)
