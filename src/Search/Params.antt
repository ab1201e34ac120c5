-- ===== src/Search/Params.antt =====
-- SearchParams of store.go.
use plv.Prelude.{ℤ, pos, ℕ, Bool, []}
use plv.Go.Text.{Text}

pub record SearchParams : Type 0 where
  pub draw : ℤ
  pub start : ℤ
  pub page_length : ℕ
  pub search_term : Text
  pub order_col : ℤ
  pub order_dir : Text
  pub filter_from : Text
  pub filter_to : Text
  pub filter_subject : Text
  pub filter_client : Text
  pub filter_relay : Text
  pub filter_status : Text
  pub filter_queue_id : Text
  pub filter_tls : Text
  pub filter_ndr : Text
  pub filter_server : Text
  pub filter_direction : Text
  pub group : Bool

abbrev pub no_params : SearchParams
no_params = record {
  draw = pos 0;
  start = pos 0;
  page_length = 25;
  search_term = [];
  order_col = pos 0;
  order_dir = [];
  filter_from = [];
  filter_to = [];
  filter_subject = [];
  filter_client = [];
  filter_relay = [];
  filter_status = [];
  filter_queue_id = [];
  filter_tls = [];
  filter_ndr = [];
  filter_server = [];
  filter_direction = [];
  group = Bool.false;
}
