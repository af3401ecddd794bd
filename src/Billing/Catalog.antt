-- ===== src/Billing/Catalog.antt =====
-- The plans: cloud/functions/src/billing/catalog.ts.
use attendence_system.Prelude.{
  ℕ, ◌*◌, ◌≡◌, refl, Bool, true, false, List, [], ◌∷◌, Option, none, some, String, find,
}
use attendence_system.Prelude.Result.{Result, ok, or_throw}

pub data PlanId : Type 0 where
  bronze silver gold platinum : PlanId

pub data BillingCycle : Type 0 where
  monthly annual : BillingCycle

-- `branches` is none where it is null: without a limit.
pub record PlanLimits : Type 0 where
  pub employees : ℕ
  pub devices : ℕ
  pub branches : Option ℕ
  pub admin_users : ℕ
  pub history_years : ℕ

pub record SaasPlan : Type 0 where
  pub id : PlanId
  pub name : String
  pub tagline : String
  pub monthly_price_lkr : ℕ
  pub annual_price_lkr : ℕ
  pub featured : Bool
  pub support : String
  pub limits : PlanLimits

abbrev pub saas_plans : List SaasPlan
saas_plans =
    record {
      id = bronze;
      name = "Bronze";
      tagline = "A dependable start for one small workplace.";
      monthly_price_lkr = 4_900;
      annual_price_lkr = 49_000;
      featured = false;
      support = "Email support";
      limits = record {
        employees = 25;
        devices = 1;
        branches = some 1;
        admin_users = 3;
        history_years = 1;
      };
    }
    ∷ record {
      id = silver;
      name = "Silver";
      tagline = "The practical choice for a growing operation.";
      monthly_price_lkr = 9_900;
      annual_price_lkr = 99_000;
      featured = true;
      support = "Priority email support";
      limits = record {
        employees = 100;
        devices = 3;
        branches = some 3;
        admin_users = 10;
        history_years = 2;
      };
    }
    ∷ record {
      id = gold;
      name = "Gold";
      tagline = "More locations, terminals, and reporting depth.";
      monthly_price_lkr = 19_900;
      annual_price_lkr = 199_000;
      featured = false;
      support = "Priority email and phone support";
      limits = record {
        employees = 300;
        devices = 10;
        branches = some 10;
        admin_users = 25;
        history_years = 5;
      };
    }
    ∷ record {
      id = platinum;
      name = "Platinum";
      tagline = "High-capacity attendance operations at scale.";
      monthly_price_lkr = 39_900;
      annual_price_lkr = 399_000;
      featured = false;
      support = "Named onboarding and priority support";
      limits = record {
        employees = 1_000;
        devices = 25;
        branches = none;
        admin_users = 50;
        history_years = 7;
      };
    }
    ∷ []

abbrev pub same_plan : PlanId → PlanId → Bool
same_plan bronze bronze = true
same_plan silver silver = true
same_plan gold gold = true
same_plan platinum platinum = true
same_plan _ _ = false

unfoldable pub plan_by_id : PlanId → Result String SaasPlan
plan_by_id id = or_throw (find (λ (p : SaasPlan). same_plan p.id id) saas_plans) "Unknown SaaS plan"

unfoldable pub price_for_cycle : SaasPlan → BillingCycle → ℕ
price_for_cycle plan annual = plan.annual_price_lkr
price_for_cycle plan monthly = plan.monthly_price_lkr

-- Every plan id names a plan of its own, and a year of it costs ten months.
pub plan_by_id-price :
    (id : PlanId)
    → (p : SaasPlan) × (plan_by_id id ≡ ok p)
      × (p.id ≡ id)
      × (price_for_cycle p annual ≡ 10 * price_for_cycle p monthly)
unfolding plan_by_id price_for_cycle
plan_by_id-price bronze = (_, refl, refl, refl)
plan_by_id-price silver = (_, refl, refl, refl)
plan_by_id-price gold = (_, refl, refl, refl)
plan_by_id-price platinum = (_, refl, refl, refl)
