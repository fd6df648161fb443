-- ===== src/Rod.antt =====
-- The library Rod and the browser behind it, as the calls that worker/browser.go makes. The state
-- of the browser is unknown; a call that may change it returns the new state with its answer, and
-- `none` for an error.
use remote_hands.Shared.{ℕ, ℤ, Bool, Text, List, Option}

-- `proto.AccessibilityAXNode`: missing texts are empty, a missing parent or DOM node is too, or 0.
pub record AxNode : Type 0 where
  pub node_id : Text
  pub ignored : Bool
  pub role : Text
  pub name : Text
  pub description : Text
  pub value : Text
  pub backend_id : ℕ
  pub parent_id : Text

-- A `float64`, as its bits. The code computes with none; it passes them on, and writes the zero, whose
-- bits are 0.
abbrev pub Float : Type 0
Float = ℕ

-- A rectangle, in the units of the browser.
pub record Box : Type 0 where
  pub x : Float
  pub y : Float
  pub width : Float
  pub height : Float

-- `proto.PageCaptureScreenshot`
pub record Capture : Type 0 where
  pub format : Text
  pub quality : Option ℤ
  pub clip : Option Box
  pub beyond_viewport : Bool

-- What is queued in a `KeyActions` before `Do`.
pub data KeyEvent : Type 0 where
  press release type_key : ℕ → KeyEvent

-- `proto.InputMouseButton`
pub data Button : Type 0 where
  left right middle : Button

pub record Rod : Type 1 where
  pub World : Type 0
  pub Page : Type 0
  pub Element : Type 0
  -- `proto.RuntimeRemoteObject`
  pub Object : Type 0
  -- A distance to scroll, a `float64`, and no distance.
  pub Offset : Type 0
  pub nowhere : Offset
  pub launch : World → Option (Unit {0}) × World
  pub connect : World → Option (Unit {0}) × World
  -- `launcher.Kill`
  pub kill : World → World
  pub close_browser : World → Option (Unit {0}) × World
  pub target_id : Page → Text
  pub new_page : Text → World → Option Page × World
  pub navigate : Page → Text → World → Option (Unit {0}) × World
  pub wait_load : Page → World → Option (Unit {0}) × World
  pub close_page : Page → World → Option (Unit {0}) × World
  -- The URL and the title.
  pub info : Page → World → Option (Text × Text) × World
  -- `Element`, `ElementX` and `ElementR` of a page; the last is given "*" and a regular expression.
  pub element : Page → Text → World → Option Element × World
  pub element_x : Page → Text → World → Option Element × World
  pub element_r : Page → Text → World → Option Element × World
  -- `proto.DOMResolveNode` and `ElementFromObject`
  pub resolve_node : Page → ℕ → World → Option Object × World
  pub element_from_object : Page → Object → World → Option Element × World
  -- `proto.AccessibilityQueryAXTree`, by role and name; the backend nodes of the result.
  pub query_ax_tree : Page → Text → Text → World → Option (List ℕ) × World
  -- `proto.AccessibilityGetFullAXTree`
  pub full_ax_tree : Page → World → Option (List AxNode) × World
  -- `proto.DOMGetBoxModel`, with the corner of the content.
  pub box_model : Page → ℕ → World → Option (Option Box) × World
  pub html : Page → World → Option Text × World
  -- `Shape` and `Box` of an element.
  pub shape : Element → World → Option (Option Box) × World
  -- `proto.PageGetLayoutMetrics`: `CSSContentSize` and `ContentSize`.
  pub layout_metrics : Page → World → Option (Option Box × Option Box) × World
  pub capture : Page → Capture → World → Option Text × World
  -- The methods of an element that the actions call.
  pub click : Element → Button → ℕ → World → Option (Unit {0}) × World
  pub select_all_text : Element → World → Option (Unit {0}) × World
  pub input : Element → Text → World → Option (Unit {0}) × World
  pub type_one : Element → ℕ → World → Option (Unit {0}) × World
  pub select : Element → List Text → World → Option (Unit {0}) × World
  -- `Property("checked")`, read as a Boolean.
  pub checked : Element → World → Option Bool × World
  pub hover : Element → World → Option (Unit {0}) × World
  pub scroll_into_view : Element → World → Option (Unit {0}) × World
  pub focus : Element → World → Option (Unit {0}) × World
  pub visible : Element → World → Option Bool × World
  pub scroll : Page → Offset → Offset → World → Option (Unit {0}) × World
  -- `Eval`, with the result as JSON.
  pub eval : Page → Text → World → Option Text × World
  -- `KeyActions.Do`
  pub do_keys : Page → List KeyEvent → World → Option (Unit {0}) × World
  -- `page.Timeout`, in milliseconds.
  pub timeout : Page → ℕ → Page
  -- `input.X` for the key named X; 0 is no key.
  pub key : Text → ℕ
  -- `time.Now` in milliseconds; a wait, which is cut short by `none` when the request is cancelled.
  pub now : World → ℕ × World
  pub sleep : ℕ → World → Option (Unit {0}) × World
  -- `time.Sleep`
  pub pause : ℕ → World → Unit {0} × World
