-- ===== src/Browser/Screenshot.antt =====
-- worker/browser.go: screenshots.
use remote_hands.Shared.{
  Bool, true, false, Option, none, some, Text, codes, ℤ, is_empty, if◌then◌else◌, connect_error,
  plain, failed_precondition,
}
use remote_hands.Action.{pure, fail, ◌>>=◌}
use remote_hands.Rod.{Rod, Box, Capture}
use remote_hands.Browser.{Method, browse, when_running, current_page, named}
use remote_hands.Browser.Selector.{find_element}

pub data ScreenshotFormat : Type 0 where
  unspecified png jpeg webp : ScreenshotFormat

-- screenshotFormatMapping
unfoldable pub screenshot_format_mapping : ScreenshotFormat → Text × Text
screenshot_format_mapping jpeg = (codes "jpeg", codes "image/jpeg")
screenshot_format_mapping webp = (codes "webp", codes "image/webp")
screenshot_format_mapping _ = (codes "png", codes "image/png")

-- The quality that is passed on: none for PNG.
unfoldable pub capture_quality : ScreenshotFormat → Option ℤ → Option ℤ
capture_quality jpeg quality = quality
capture_quality webp quality = quality
capture_quality _ quality = none

-- The size of the content from the corner of the page.
abbrev pub from_corner : Box → Box
from_corner size = record { x = 0; y = 0; width = size.width; height = size.height }

module _ (rod : Rod) where
  -- The clip to an element's box.
  unfoldable pub visible_box : Option Box → Method rod Box
  visible_box none = fail (connect_error failed_precondition "element has no visible bounding box")
  visible_box (some box) = pure box

  unfoldable pub clip_to_element : rod.Page → Text → Capture → Method rod Capture
  clip_to_element page selector cmd = do
    el ← find_element rod page selector
    shape ← browse rod (rod.shape el) (plain "get element shape: %w")
    box ← visible_box shape
    pure (record cmd { clip = some box })

  -- The clip to the content, if its size is known.
  unfoldable pub content_clip : Option Box → Option Box → Capture → Capture
  content_clip (some size) _ cmd = record cmd {
    clip = some (from_corner size);
    beyond_viewport = true;
  }
  content_clip none (some size) cmd = record cmd {
    clip = some (from_corner size);
    beyond_viewport = true;
  }
  content_clip none none cmd = cmd

  unfoldable pub clip_to_content : rod.Page → Capture → Method rod Capture
  clip_to_content page cmd = do
    sizes ← browse rod (rod.layout_metrics page) (plain "get layout metrics: %w")
    pure (content_clip sizes.0 sizes.1 cmd)

  unfoldable pub clip_capture : rod.Page → Text → Bool → Capture → Method rod Capture
  clip_capture page selector full_page cmd =
      if is_empty selector
      then (if full_page then clip_to_content page cmd else pure cmd)
      else clip_to_element page selector cmd

  -- Screenshot: the image and its content type.
  unfoldable pub screenshot :
      Option Text → ScreenshotFormat → Bool → Option Text → Option ℤ → Method rod (Text × Text)
  screenshot page_id format full_page selector quality = when_running rod (do
    page ← current_page rod page_id
    cmd ← clip_capture page (named selector) full_page (record {
      format = (screenshot_format_mapping format).0;
      quality = capture_quality format quality;
      clip = none;
      beyond_viewport = false;
    })
    image ← browse rod (rod.capture page cmd) (plain "capture screenshot: %w")
    pure (image, (screenshot_format_mapping format).1))
