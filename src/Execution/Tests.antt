-- ===== src/Execution/Tests.antt =====
-- Tests of internal/execution: runs of the model, and the theorems at concrete inputs.
use mathlib.Core.List.{Memᴰ}
use go_be_arbitrage.Prelude.{ℕ, ◌+◌, ◌≡◌, refl, false, some, [], ◌∷◌, ◌++◌, ◌⊎◌, inl, ◌≢◌}
use go_be_arbitrage.Execution.Status.{
  OrderStatus, created, submitting, opened, filled, can_transition,
}
use go_be_arbitrage.Execution.Model.{
  paper, LegStatus, ExecutionStatus, Side, client_id, IntentLeg, CreateExecutionRequest, Execution,
  ExecutionLeg, Order,
}
use go_be_arbitrage.Execution.Store.{Env, Store, find_execution, legs_of, insert_leg, order_taken}
use go_be_arbitrage.Execution.Engine.{submit_execution, create_execution}
use go_be_arbitrage.Execution.Lifecycle.{
  attempts, attempt, filled_needs_open, way_out, way_out-IsTerminal, IsTerminal,
}
use go_be_arbitrage.Execution.Outcomes.{Ends}
use go_be_arbitrage.Execution.Paper.{Fails, drafted}
use go_be_arbitrage.Execution.Submit.{NothingFilled, submit_paper-Fails}
use go_be_arbitrage.Execution.Create.{create_execution-Ends, Added, SomeAdded}

abbrev calm : Env
calm = record { uuid = λ n. 100 + n; clock = λ n. 1000 + n; down = λ _. false }

abbrev short_id : ℕ → ℕ
short_id n = n

abbrev one_leg : IntentLeg ℕ
one_leg = record {
  venue_account_id = 3;
  instrument_id = 4;
  side = Side.buy;
  quantity = 2;
  price = 50_000;
}

abbrev paper_request : CreateExecutionRequest ℕ
paper_request = record {
  strategy_instance_id = 9;
  execution_mode = paper;
  legs = one_leg ∷ one_leg ∷ [];
}

abbrev paper_execution : ℕ → Execution ℕ
paper_execution i = record {
  id = i;
  tenant_id = 1;
  strategy_instance_id = 9;
  execution_mode = paper;
  status = ExecutionStatus.created;
  intent = one_leg ∷ [];
  created_at = 5;
}

abbrev pending_leg : ExecutionLeg ℕ
pending_leg = record {
  id = 21;
  execution_id = 7;
  leg_index = 0;
  venue_account_id = 3;
  instrument_id = 4;
  target_side = Side.buy;
  target_quantity = some 2;
  target_notional = some 50_000;
  status = LegStatus.pending;
}

-- An execution 7 with a leg, and an execution 8 without.
abbrev stored : Store ℕ
stored = record {
  executions = paper_execution 7 ∷ paper_execution 8 ∷ [];
  legs = pending_leg ∷ [];
  orders = [];
  effects = 0;
}

abbrev sample_order : OrderStatus → Order ℕ
sample_order st = record {
  id = 31;
  execution_leg_id = some 21;
  venue_account_id = 3;
  instrument_id = 4;
  client_order_id = client_id 0;
  side = Side.buy;
  requested_quantity = some 2;
  requested_price = some 50_000;
  status = st;
  created_at = 5;
  updated_at = 5;
}

legs_of_stored : legs_of 7 stored.legs ≡ pending_leg ∷ []
unfolding legs_of insert_leg
legs_of_stored = refl

legs_of_stored_other : legs_of 8 stored.legs ≡ []
unfolding legs_of insert_leg
legs_of_stored_other = refl

legs_of_stored_nonempty : legs_of 7 stored.legs ≢ []
legs_of_stored_nonempty e = cc legs_of_stored

find_stored : find_execution 7 stored.executions ≡ some (paper_execution 7)
unfolding find_execution
find_stored = refl

no_order_taken :
    order_taken
      (drafted calm short_id (paper_execution 7) pending_leg (record stored { effects = 2 }))
      stored.orders
    ≡ false
unfolding order_taken
no_order_taken = refl

reaches_filled :
    (attempts stored (sample_order created) (submitting ∷ opened ∷ filled ∷ [])).status ≡ filled
unfolding attempts attempt can_transition
reaches_filled = refl

filled_needs_open_example : Memᴰ opened (submitting ∷ opened ∷ filled ∷ [])
filled_needs_open_example =
    filled_needs_open stored (sample_order created) (submitting ∷ opened ∷ filled ∷ []) refl
      (inl reaches_filled)

way_out-IsTerminal_example :
    IsTerminal (attempts stored (sample_order opened) (way_out opened)).status
    × (attempts stored (sample_order opened) (way_out opened) ≡ record (sample_order opened) {
      status = (attempts stored (sample_order opened) (way_out opened)).status;
    })
way_out-IsTerminal_example = way_out-IsTerminal stored (sample_order opened) refl

submit_paper-Fails_example :
    Fails (NothingFilled (paper_execution 7) stored) (submit_execution calm short_id 7 stored)
submit_paper-Fails_example =
    submit_paper-Fails calm short_id 7 stored (paper_execution 7) find_stored refl
      legs_of_stored_nonempty

abbrev created_execution : Execution ℕ
created_execution = record {
  id = 100;
  tenant_id = 1;
  strategy_instance_id = 9;
  execution_mode = paper;
  status = ExecutionStatus.created;
  intent = one_leg ∷ one_leg ∷ [];
  created_at = 1001;
}

create_execution-Ends_example :
    Ends
      (λ e t.
        ((t.executions ≡ stored.executions) × (t.legs ≡ stored.legs) × (t.orders ≡ stored.orders))
        ⊎ SomeAdded 100 0 paper_request.legs
            (record stored { executions = stored.executions ++ created_execution ∷ [] })
            t)
      (λ y t.
        (y ≡ created_execution)
        × Added 100 0 paper_request.legs
            (record stored { executions = stored.executions ++ created_execution ∷ [] })
            t)
      (create_execution calm short_id 1 paper_request stored)
create_execution-Ends_example = create_execution-Ends calm short_id 1 paper_request stored
