-- ===== src/VaticPlots/Missing.antt =====
-- Missing files in the plots of PlotvaticTrace.py.
use vatic_udp.Prelude.{List, ◌≡◌, true, ℤ, Error, ok, err}
use vatic_udp.Py.Text.{Text, codes}
use vatic_udp.Py.Floats.{Floats}
use vatic_udp.VaticPlots.{
  Comparing, Files, is_file, log_path, columns, window_row, unpack_two, plot_vatic,
}

is_file-ok :
    (files : Files) (path : Text) (lines : List Text)
    → files path ≡ ok lines
    → is_file files path ≡ true
unfolding is_file
is_file-ok files path lines e = rw (e, is_file)

module _ (fl : Floats) (cmp : Comparing fl) (files : Files) (dir prefix : Text) (base : ℤ) where
  open fl use {Float}

  -- If the logs of the window and of alpha can be read and that of the centroids cannot be opened, the
  -- error of `open` goes through.
  pub plot_vatic-no_centroids :
      (window_lines alpha_lines : List Text) (w : List Float × List (Float × Float × Float))
      (a : List Float × List Float) (e : Error)
      → files (log_path dir prefix (codes "cwnd")) ≡ ok window_lines
      → files (log_path dir prefix (codes "alpha")) ≡ ok alpha_lines
      → columns fl cmp (window_row fl cmp) base window_lines ≡ ok w
      → columns fl cmp (unpack_two fl cmp) base alpha_lines ≡ ok a
      → files (log_path dir prefix (codes "centroids")) ≡ err e
      → plot_vatic fl cmp files dir prefix base ≡ err e
  unfolding plot_vatic
  plot_vatic-no_centroids window_lines alpha_lines w a e hw ha cw ca hc =
      rw (is_file-ok files _ window_lines hw, is_file-ok files _ alpha_lines ha, hw, cw, ha, ca, hc)
