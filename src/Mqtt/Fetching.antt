-- ===== src/Mqtt/Fetching.antt =====
-- _fetch_callback hands out the received bytes in order, and then what lies behind them.
